-- ===== src/Contracts/Eligible.antt =====
-- When `VerifiedEligible` (pkg/backend/contracts.go) and `ValidateVerifiedRun`
-- (internal/profile/verified.go) accept.
use harness_trajectory_bench.Prelude.{
  ℕ, ◌≤◌, ◌<◌, String, ◌≡◌, refl, ◌≢◌, ◌↔◌, ◌⊎◌, inl, inr, true, false, ◌||◌, not, List, [], ◌∷◌,
  arith, ◌==◌, ◌!=◌, ==_iff, nat_eq, string_eq, bool_eq, list_eq, pair_eq, Bool-cases, All, pass,
  reject, check_all, check_all-All, >>-eq-ok, reject-eq-pass, !=-eq-false, ==_eq-false, All-map,
  All-zip, Distinct, check_once, check_once_iff,
}
use harness_trajectory_bench.Contracts.Plan.{
  RunSpec, ObservationPlan, CapabilityManifest, validate_run_spec, validate_plan, validate_manifest,
  verified_invariant, validate_plan_against_manifest,
}
use harness_trajectory_bench.Contracts.Health.{
  SensorSourceHealth, SensorHealth, valid_sequence_range, source_identity, check_identity,
  check_ranges, validate_health, check_source, verified_eligible, validate_verified_run,
}
use harness_trajectory_bench.Contracts.Coverage.{
  Covered, Strict, verified_invariant_iff, plan_accepted_iff,
}

-- A range of source sequence numbers: nothing at all, or `start` to `end` from 1 on.
abbrev pub IsRange : ℕ → ℕ → Type 0
IsRange start end = ((start ≡ 0) × (end ≡ 0)) ⊎ ((0 < start) × (start ≤ end))

-- The source is named, ran its whole life, lost nothing, and observed the expected range.
pub record Healthy (s : SensorSourceHealth) : Type 0 where
  pub sensor : s.sensor_id ≢ ""
  pub boot : s.boot_id ≢ ""
  pub started : s.started ≡ true
  pub drained : s.drained ≡ true
  pub stopped : s.stopped ≡ true
  pub gaps : s.gaps ≡ 0
  pub duplicates : s.duplicates ≡ 0
  pub drops : s.drops ≡ 0
  pub parse_failures : s.parse_failures ≡ 0
  pub plaintext_failures : s.plaintext_failures ≡ 0
  pub stream_gaps : s.stream_gaps ≡ 0
  pub unreconciled_flows : s.unreconciled_flows ≡ 0
  pub range : IsRange s.expected_start s.expected_end
  pub start : s.observed_start ≡ s.expected_start
  pub end : s.observed_end ≡ s.expected_end

IsRange-iff : (start end : ℕ) → (valid_sequence_range start end ≡ true) ↔ IsRange start end
unfolding valid_sequence_range
IsRange-iff start end = (
  λ h. split_range (Bool-cases (start == 0)) h,
  λ h. elim h [ inl x ↦ ground arith | inr x ↦ ground arith ],
)
  where
    split_range :
        ((start == 0) ≡ true) ⊎ ((start == 0) ≡ false)
        → valid_sequence_range start end ≡ true
        → IsRange start end
    split_range (inl e) h = inl (ground arith, ground arith)
    split_range (inr e) h = inr (ground arith, ground arith)

abbrev Accepted : SensorSourceHealth → Type 0
Accepted s = (check_identity s ≡ pass) × (check_ranges s ≡ pass) × (check_source s ≡ pass)

Accepted-Healthy : (s : SensorSourceHealth) → Accepted s → Healthy s
unfolding check_source
Accepted-Healthy s (a, b, c) = record {
  sensor = λ e. absurd (ground (arith, (==_iff s.sensor_id "").1 e));
  boot = λ e. absurd (ground (arith, (==_iff s.boot_id "").1 e));
  started = ground arith;
  drained = ground arith;
  stopped = ground arith;
  gaps = ground arith;
  duplicates = ground arith;
  drops = ground arith;
  parse_failures = ground arith;
  plaintext_failures = ground arith;
  stream_gaps = ground arith;
  unreconciled_flows = ground arith;
  range = (IsRange-iff s.expected_start s.expected_end).0 (ground arith);
  start = ground arith;
  end = ground arith;
}

Healthy-Accepted : (s : SensorSourceHealth) → Healthy s → Accepted s
unfolding check_source
Healthy-Accepted s h =
    let expected = (IsRange-iff s.expected_start s.expected_end).1 h.range in
    (
      rw (==_eq-false s.sensor_id "" h.sensor, ==_eq-false s.boot_id "" h.boot) refl,
      rw (h.start, h.end, expected) refl,
      rw
          (
            h.started, h.drained, h.stopped, h.gaps, h.duplicates, h.drops, h.parse_failures,
            h.plaintext_failures, h.stream_gaps, h.unreconciled_flows, h.start, h.end,
          )
          (ground arith),
    )

-- The checks of the three loops over the sources, put together and taken apart.
accepted_all :
    (xs : List SensorSourceHealth)
    → All (λ s. (check_identity s ≡ pass) × (check_ranges s ≡ pass)) xs
    → check_all check_source xs ≡ pass
    → All Healthy xs
accepted_all xs a h =
    All-map _ _ (λ s p. Accepted-Healthy s (p.0.0, p.0.1, p.1)) xs
      (All-zip _ _ xs a (check_all-All check_source xs h))

check_all-of :
    (xs : List SensorSourceHealth)
    → All (λ s. check_source s ≡ pass) xs
    → check_all check_source xs ≡ pass
check_all-of [] h = refl
check_all-of (x ∷ xs) h = rw h.0 (check_all-of xs h.1)

-- What a verified run's health has to be.
pub record Eligible (h : SensorHealth) : Type 0 where
  pub versioned : h.schema_version ≢ ""
  pub appender_drops : h.appender_drops ≡ 0
  pub opaque_connections : h.opaque_connections ≡ 0
  pub healthy : All Healthy h.sources
  pub distinct : Distinct source_identity h.sources

-- `VerifiedEligible` accepts exactly the health reports with a version and no appender drops or
-- opaque connections, whose sources have names that differ as pairs of sensor and boot, ran from
-- start to stop, lost and duplicated nothing, and observed exactly the expected range.
pub verified_eligible_iff : (h : SensorHealth) → (verified_eligible h ≡ pass) ↔ Eligible h
unfolding verified_eligible validate_health
verified_eligible_iff h = (accepts, eligible)
  where
    once :
        (check_once source_identity "invalid or duplicate sensor source" check_identity check_ranges
            [] h.sources
          ≡ pass)
        ↔ (All (λ s. (check_identity s ≡ pass) × (check_ranges s ≡ pass)) h.sources
            × Distinct source_identity h.sources)
    once =
        check_once_iff source_identity "invalid or duplicate sensor source" check_identity
          check_ranges h.sources

    accepts : verified_eligible h ≡ pass → Eligible h
    accepts e =
        let (v, e1) = >>-eq-ok (validate_health h) _ e in
        let (a, e2) = >>-eq-ok (reject (h.schema_version == "") _) _ v in
        let (b, e3) =
          >>-eq-ok (reject ((h.appender_drops != 0) || (h.opaque_connections != 0)) _) _ e1 in
        let (all, distinct) = once.0 e2 in
        record {
          versioned = λ z. absurd (ground (arith, (==_iff h.schema_version "").1 z));
          appender_drops = ground arith;
          opaque_connections = ground arith;
          healthy = accepted_all h.sources all e3;
          distinct = distinct;
        }

    eligible : Eligible h → verified_eligible h ≡ pass
    eligible e =
        let all = All-map _ _ Healthy-Accepted h.sources e.healthy in
        rw
          (
            ==_eq-false h.schema_version "" e.versioned,
            once.1 (All-map _ _ (λ s p. (p.0, p.1)) h.sources all, e.distinct),
            e.appender_drops,
            e.opaque_connections,
          )
          (check_all-of h.sources (All-map _ _ (λ s p. p.2) h.sources all))

-- What `ValidateVerifiedRun` demands of a run.
pub record IsVerified (trim_space : String → String) (spec : RunSpec) (plan : ObservationPlan)
    (m : CapabilityManifest) (health : SensorHealth) : Type 0 where
  pub declared : spec.verified ≡ true
  pub profile : spec.profile ≡ "verified.v1"
  pub spec_valid : validate_run_spec trim_space spec ≡ pass
  pub plan_valid : validate_plan plan ≡ pass
  pub manifest_valid : validate_manifest m ≡ pass
  pub strict : Strict plan
  pub covered : All (Covered m.capabilities true) plan.requirements
  pub eligible : Eligible health

-- `ValidateVerifiedRun` accepts exactly the runs that are declared verified under the profile
-- verified.v1, with a valid specification, plan and manifest, a strict plan, every requirement
-- covered by the manifest, and an eligible health report.
pub IsVerified-run_iff :
    (trim_space : String → String) (spec : RunSpec) (plan : ObservationPlan)
    (m : CapabilityManifest) (health : SensorHealth)
    → (validate_verified_run trim_space spec plan m health ≡ pass)
      ↔ IsVerified trim_space spec plan m health
unfolding validate_verified_run
IsVerified-run_iff trim_space spec plan m health = (
  λ e.
      (let (a, e1) = >>-eq-ok (reject (not spec.verified) _) _ e in
        let (b, e2) = >>-eq-ok (reject (spec.profile != "verified.v1") _) _ e1 in
        let (c, e3) = >>-eq-ok (validate_run_spec trim_space spec) _ e2 in
        let (d, e4) = >>-eq-ok (verified_invariant plan) _ e3 in
        let (f, e5) = >>-eq-ok (validate_plan_against_manifest plan m true) _ e4 in
        let (p, q, _, r) = (plan_accepted_iff plan m true).0 f in
        record {
          declared = ground arith;
          profile = !=-eq-false spec.profile "verified.v1" (reject-eq-pass _ _ b);
          spec_valid = c;
          plan_valid = p;
          manifest_valid = q;
          strict = (verified_invariant_iff plan).0 d;
          covered = r;
          eligible = (verified_eligible_iff health).0 e5;
        }),
  λ v.
      rw
        (
          v.spec_valid,
          v.declared,
          v.profile,
          (verified_invariant_iff plan).1 v.strict,
          (plan_accepted_iff plan m true).1
              (v.plan_valid, v.manifest_valid, inr v.strict, v.covered),
        )
        ((verified_eligible_iff health).1 v.eligible),
)
