-- ===== src/Contracts/Coverage.antt =====
-- When `ValidatePlanAgainstManifest` of pkg/backend/contracts.go accepts a plan.
use mathlib.Core.List.{Memᴰ}
use harness_trajectory_bench.Prelude.{
  ◌≡◌, refl, sym, ◌≢◌, ◌↔◌, ◌⊎◌, inl, inr, Bool, true, false, ◌&&◌, ◌||◌, List, [], ◌∷◌, arith,
  if◌then◌else◌, ◌==◌, ◌!=◌, ==_iff, nat_eq, string_eq, bool_eq, list_eq, pair_eq, Bool-cases, All,
  Check, pass, ◌>>◌, reject, or_fail, check_all, >>=-eq-ok, >>-eq-ok, reject-eq-pass, or_fail-eq-ok,
  ==_eq-false, lookup, is_negative, All-map, Distinct, check_once, check_once_iff,
}
use harness_trajectory_bench.Contracts.Plan.{
  ObservationRequirement, ObservationPlan, Capability, CapabilityManifest, observation_rank,
  enforcement_rank, outranks, validate_requirement, validate_plan, verified_invariant,
  validate_capability, validate_manifest, by_family, check_requirement,
  validate_plan_against_manifest,
}
use harness_trajectory_bench.Contracts.Families.{All-at, lookup-by_family, by_family-Mem}
use harness_trajectory_bench.Contracts.Levels.{
  observation_levels, enforcement_levels, AtLeast, outranks-AtLeast, AtLeast-outranks,
  observation-Ranks, enforcement-Ranks,
}

-- A capability that is as strong as the requirement asks.
pub record Covers (verified : Bool) (r : ObservationRequirement) (c : Capability) : Type 0 where
  pub family : c.event_family ≡ r.event_family
  pub observes : AtLeast observation_levels c.observation r.minimum_observation
  pub enforces : AtLeast enforcement_levels c.enforcement r.minimum_enforcement
  pub supported :
      ((verified && r.required_for_verified_run) ≡ false)
      ⊎ ((c.observation ≢ "unsupported") × (c.enforcement ≢ "unsupported"))

abbrev pub Covered : List Capability → Bool → ObservationRequirement → Type 0
Covered capabilities verified r = (c : Capability) × Memᴰ c capabilities × Covers verified r c

requirement-levels :
    (r : ObservationRequirement)
    → validate_requirement r ≡ pass
    → (is_negative (observation_rank r.minimum_observation) ≡ false)
      × (is_negative (enforcement_rank r.minimum_enforcement) ≡ false)
unfolding validate_requirement
requirement-levels r h = ground arith

capability-levels :
    (c : Capability)
    → validate_capability c ≡ pass
    → (is_negative (observation_rank c.observation) ≡ false)
      × (is_negative (enforcement_rank c.enforcement) ≡ false)
unfolding validate_capability
capability-levels c h = ground arith

abbrev unsupported : Bool → ObservationRequirement → Capability → Bool
unsupported verified r c =
    verified
    && r.required_for_verified_run
    && ((c.observation == "unsupported") || (c.enforcement == "unsupported"))

unsupported-false :
    (verified : Bool) (r : ObservationRequirement) (c : Capability)
    → unsupported verified r c ≡ false
    → ((verified && r.required_for_verified_run) ≡ false)
      ⊎ ((c.observation ≢ "unsupported") × (c.enforcement ≢ "unsupported"))
unsupported-false verified r c h = elim (Bool-cases (verified && r.required_for_verified_run)) [
  | inr e ↦ inl e
  | inl e ↦ inr (
    λ x. absurd (ground (arith, (==_iff c.observation "unsupported").1 x)),
    λ x. absurd (ground (arith, (==_iff c.enforcement "unsupported").1 x)),
  )
]

unsupported-of :
    (verified : Bool) (r : ObservationRequirement) (c : Capability)
    → Covers verified r c
    → unsupported verified r c ≡ false
unsupported-of verified r c h = elim (Bool-cases (unsupported verified r c)) [
  | inr e ↦ e
  | inl e ↦ elim h.supported [
    | inl x ↦ absurd (ground arith)
    | inr (o, n) ↦ absurd (
        ground (
          arith,
          ==_eq-false c.observation "unsupported" o,
          ==_eq-false c.enforcement "unsupported" n,
        ))
  ]
]

module _ (capabilities : List Capability) (verified : Bool) (r : ObservationRequirement) where
  requirement-Covered :
      All (λ c. validate_capability c ≡ pass) capabilities
      → validate_requirement r ≡ pass
      → check_requirement (by_family capabilities []) verified r ≡ pass
      → Covered capabilities verified r
  unfolding check_requirement lookup
  requirement-Covered valid vr h =
      let (c, e, h1) =
        >>=-eq-ok (or_fail (lookup r.event_family (by_family capabilities [])) _) _ h in
      let (p, h2) =
        >>-eq-ok
          (reject
            (outranks (observation_rank c.observation) (observation_rank r.minimum_observation)) _)
          _ h1 in
      let (q, h3) =
        >>-eq-ok
          (reject
            (outranks (enforcement_rank c.enforcement) (enforcement_rank r.minimum_enforcement)) _)
          _ h2 in
      let (ro, re) = requirement-levels r vr in
      elim (by_family-Mem r.event_family capabilities [] (or_fail-eq-ok _ _ e)) [
        | inl x ↦ cc
        | inr (i, f) ↦
            let (co, ce) = capability-levels c (All-at _ capabilities i valid) in
            (
              c,
              i,
              record {
                family = f;
                observes =
                    outranks-AtLeast observation_levels observation_rank observation-Ranks _ _ co ro
                      (reject-eq-pass _ _ p);
                enforces =
                    outranks-AtLeast enforcement_levels enforcement_rank enforcement-Ranks _ _ ce re
                      (reject-eq-pass _ _ q);
                supported = unsupported-false verified r c (reject-eq-pass _ _ h3);
              },
            )
      ]

  Covered-requirement :
      Distinct (λ c. c.event_family) capabilities
      → Covered capabilities verified r
      → check_requirement (by_family capabilities []) verified r ≡ pass
  unfolding check_requirement
  Covered-requirement d (c, i, h) =
      rw
        (
          sym h.family,
          lookup-by_family c capabilities [] i d,
          AtLeast-outranks observation_levels observation_rank observation-Ranks _ _ h.observes,
          AtLeast-outranks enforcement_levels enforcement_rank enforcement-Ranks _ _ h.enforces,
          unsupported-of verified r c h,
        )
        refl

-- The plan is as strict as a verified run asks.
abbrev pub Strict : ObservationPlan → Type 0
Strict plan =
    (plan.plaintext_required ≡ true)
    × (plan.preserve_destinations ≡ true)
    × (plan.opaque_traffic_policy ≡ "deny")

pub verified_invariant_iff :
    (plan : ObservationPlan) → (verified_invariant plan ≡ pass) ↔ Strict plan
unfolding verified_invariant
verified_invariant_iff plan = (
  λ h. (ground arith, ground arith, ground (arith, ==_iff plan.opaque_traffic_policy "deny")),
  λ h. rw (h.0, h.1, h.2) refl,
)

manifest-parts :
    (m : CapabilityManifest)
    → validate_manifest m ≡ pass
    → All (λ c. validate_capability c ≡ pass) m.capabilities
      × Distinct (λ c. c.event_family) m.capabilities
unfolding validate_manifest
manifest-parts m h =
    let (_, h1) =
      >>-eq-ok
        (reject
          ((m.schema_version == "")
            || (m.backend == "")
            || (m.version == "")
            || (m.trust_domain == ""))
          _)
        _ h in
    let (p, _) =
      >>-eq-ok
        (check_once (λ c. c.event_family) "duplicate capability" validate_capability (λ c. pass) []
          m.capabilities)
        _ h1 in
    let (all, distinct) =
      (check_once_iff (λ c. c.event_family) "duplicate capability" validate_capability (λ c. pass)
          m.capabilities).0
        p in
    (All-map _ _ (λ c x. x.0) m.capabilities all, distinct)

plan-parts :
    (plan : ObservationPlan)
    → validate_plan plan ≡ pass
    → All (λ r. validate_requirement r ≡ pass) plan.requirements
unfolding validate_plan
plan-parts plan h =
    let (_, h1) = >>-eq-ok (reject (plan.schema_version == "") _) _ h in
    let (_, p) =
      >>-eq-ok
        (reject ((plan.opaque_traffic_policy != "deny") && (plan.opaque_traffic_policy != "allow"))
          _)
        _ h1 in
    let (all, _) =
      (check_once_iff (λ r. r.event_family) "duplicate observation requirement" validate_requirement
          (λ r. pass) plan.requirements).0
        p in
    All-map _ _ (λ r x. x.0) plan.requirements all

all_covered :
    (capabilities : List Capability) (verified : Bool) (rs : List ObservationRequirement)
    → All (λ c. validate_capability c ≡ pass) capabilities
    → All (λ r. validate_requirement r ≡ pass) rs
    → check_all (check_requirement (by_family capabilities []) verified) rs ≡ pass
    → All (Covered capabilities verified) rs
all_covered capabilities verified [] vc vr h = tt
all_covered capabilities verified (r ∷ rs) vc vr h =
    let (p, q) = >>-eq-ok (check_requirement (by_family capabilities []) verified r) _ h in
    (
      requirement-Covered capabilities verified r vc vr.0 p,
      all_covered capabilities verified rs vc vr.1 q,
    )

all_checked :
    (capabilities : List Capability) (verified : Bool) (rs : List ObservationRequirement)
    → Distinct (λ c. c.event_family) capabilities
    → All (Covered capabilities verified) rs
    → check_all (check_requirement (by_family capabilities []) verified) rs ≡ pass
all_checked capabilities verified [] d h = refl
all_checked capabilities verified (r ∷ rs) d h =
    rw (Covered-requirement capabilities verified r d h.0)
      (all_checked capabilities verified rs d h.1)

-- `ValidatePlanAgainstManifest` accepts exactly if the plan and the manifest are valid, the plan is
-- strict where the run is verified, and every requirement has a capability of its family in the
-- manifest that observes and enforces at least at the required levels, and that is not unsupported
-- where a verified run requires the family.
pub plan_accepted_iff :
    (plan : ObservationPlan) (m : CapabilityManifest) (verified : Bool)
    → (validate_plan_against_manifest plan m verified ≡ pass) ↔ (
        (validate_plan plan ≡ pass)
        × (validate_manifest m ≡ pass)
        × ((verified ≡ false) ⊎ Strict plan)
        × All (Covered m.capabilities verified) plan.requirements)
unfolding validate_plan_against_manifest
plan_accepted_iff plan m verified = (
  λ h.
      (let (p, h1) = >>-eq-ok (validate_plan plan) _ h in
        let (q, h2) = >>-eq-ok (validate_manifest m) _ h1 in
        let (s, h3) = >>-eq-ok (if verified then verified_invariant plan else pass) _ h2 in
        (
          p,
          q,
          strict_if verified s,
          all_covered m.capabilities verified plan.requirements (manifest-parts m q).0
              (plan-parts plan p) h3,
        )),
  λ h.
      rw (h.0, h.1)
        (strictly verified h.2
          (all_checked m.capabilities verified plan.requirements (manifest-parts m h.1).1 h.3)),
)
  where
    strict_if :
        (v : Bool)
        → (if v then verified_invariant plan else pass) ≡ pass
        → (v ≡ false) ⊎ Strict plan
    strict_if true s = inr ((verified_invariant_iff plan).0 s)
    strict_if false s = inl refl

    strictly :
        (v : Bool)
        → ((v ≡ false) ⊎ Strict plan)
        → {k : Check} → k ≡ pass
        → ((if v then verified_invariant plan else pass) >> k) ≡ pass
    strictly true (inl x) e = cc
    strictly true (inr s) e = rw ((verified_invariant_iff plan).1 s) e
    strictly false s e = e
