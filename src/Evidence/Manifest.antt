-- ===== src/Evidence/Manifest.antt =====
-- `RunEvidenceManifest.Validate` of internal/evidence/raw.go.
use harness_trajectory_bench.Prelude.{
  ℕ, String, ◌≡◌, refl, ap, ◌≢◌, ◌↔◌, Bool, true, false, ◌&&◌, ◌||◌, not, none, some, List, [], ◌∷◌,
  arith, ◌==◌, ◌!=◌, ==_iff, nat_eq, string_eq, bool_eq, list_eq, pair_eq, All, Check, pass, ◌>>◌,
  reject, check_all, check_all-All, >>-eq-ok, reject-eq-pass, ==_eq-false, contains, codes,
  Timestamp, is_zero_time, All-map, Distinct, check_once, check_once_iff,
}
use text.Mathlib.Text.{starts_with}
use harness_trajectory_bench.Evidence.Paths.{starts_with-false, contains-false}
use Prim.Native.String
use harness_trajectory_bench.Evidence.Raw.{valid_hash}
use harness_trajectory_bench.Evidence.Digest.{IsDigest, valid_hash_iff}

pub record ArtifactDigest : Type 0 where
  pub path : String
  pub sha256 : String
  pub size : ℕ  -- uint64

pub record RunEvidenceManifest : Type 0 where
  pub schema_version : String
  pub run_id : String
  pub run_spec_digest : String
  pub observation_plan_digest : String
  pub capability_manifest_digest : String
  pub sensor_health_digest : String
  pub tracked_event_chain_head : String
  pub raw_chain_heads : List (String × String)
  pub artifacts : List ArtifactDigest
  pub merkle_root : String
  pub signature : String
  pub signature_format : String
  pub sealed_at : Timestamp

abbrev pub six_digests : RunEvidenceManifest → List String
six_digests m =
    m.run_spec_digest ∷ m.observation_plan_digest ∷ m.capability_manifest_digest
    ∷ m.sensor_health_digest ∷ m.tracked_event_chain_head ∷ m.merkle_root ∷ []

-- `path.Clean` is an argument.
module _ (clean : String → String) where
  unfoldable pub valid_artifact_path : String → Bool
  valid_artifact_path value =
      (value != "")
      && (value != ".")
      && not (starts_with value "/")
      && not (contains (codes value) 92)
      && (clean value == value)
      && not (starts_with value "../")

  abbrev pub bad_identity : RunEvidenceManifest → Bool
  bad_identity m =
      (m.schema_version == "")
      || (m.run_id == "")
      || not (valid_hash m.run_spec_digest)
      || not (valid_hash m.observation_plan_digest)
      || not (valid_hash m.capability_manifest_digest)
      || not (valid_hash m.sensor_health_digest)
      || not (valid_hash m.tracked_event_chain_head)
      || not (valid_hash m.merkle_root)
      || is_zero_time m.sealed_at

  abbrev pub check_head : String × String → Check
  check_head (source, head) =
      reject ((source == "") || not (valid_hash head)) "invalid raw chain head"

  abbrev pub check_artifact : ArtifactDigest → Check
  check_artifact a =
      reject (not (valid_artifact_path a.path) || not (valid_hash a.sha256))
        "invalid artifact digest"

  unfoldable pub validate_evidence_manifest : RunEvidenceManifest → Check
  validate_evidence_manifest m = do
    reject (bad_identity m) "invalid evidence manifest identity or digest"
    check_all check_head m.raw_chain_heads
    check_once (λ a. a.path) "duplicate artifact path" check_artifact (λ a. pass) [] m.artifacts

  -- The path of an artifact: clean, relative, inside the directory, and without a backslash.
  pub record CleanPath (path : String) : Type 0 where
    pub clean_form : clean path ≡ path
    pub named : (path ≢ "") × (path ≢ ".")
    pub relative : (rest : String) → String.◌++◌ "/" rest ≢ path
    pub inside : (rest : String) → String.◌++◌ "../" rest ≢ path
    pub slashes : All (λ c. c ≢ b'\\') (codes path)

  path_iff : (path : String) → (valid_artifact_path path ≡ true) ↔ CleanPath path
  unfolding valid_artifact_path
  path_iff path = (accepts, valid)
    where
      accepts : valid_artifact_path path ≡ true → CleanPath path
      accepts e = record {
        clean_form = (==_iff (clean path) path).0 (ground arith);
        named = (
          λ z. absurd (ground (arith, (==_iff path "").1 z)),
          λ z. absurd (ground (arith, (==_iff path ".").1 z)),
        );
        relative = (starts_with-false path "/").0 (ground arith);
        inside = (starts_with-false path "../").0 (ground arith);
        slashes = (contains-false (codes path) 92).0 (ground arith);
      }

      valid : CleanPath path → valid_artifact_path path ≡ true
      valid h = ground (
        arith,
        (==_iff (clean path) path).1 h.clean_form,
        ==_eq-false path "" h.named.0,
        ==_eq-false path "." h.named.1,
        (starts_with-false path "/").1 h.relative,
        (starts_with-false path "../").1 h.inside,
        (contains-false (codes path) 92).1 h.slashes,
      )

  -- A manifest as the format asks for it.
  pub record IsManifest (m : RunEvidenceManifest) : Type 0 where
    pub identified : (m.schema_version ≢ "") × (m.run_id ≢ "") × (m.sealed_at ≢ none)
    pub bound : All IsDigest (six_digests m)
    pub chained : All (λ h. (h.0 ≢ "") × IsDigest h.1) m.raw_chain_heads
    pub digested : All (λ a. CleanPath a.path × IsDigest a.sha256) m.artifacts
    pub distinct : Distinct (λ a. a.path) m.artifacts

  check_head_iff : (h : String × String) → (check_head h ≡ pass) ↔ ((h.0 ≢ "") × IsDigest h.1)
  check_head_iff (source, head) = (
    λ e. (
      λ z. absurd (ground (arith, (==_iff source "").1 z)),
      (valid_hash_iff head).0 (ground arith),
    ),
    λ (n, v). ground (arith, ==_eq-false source "" n, (valid_hash_iff head).1 v),
  )

  check_artifact_iff :
      (a : ArtifactDigest) → (check_artifact a ≡ pass) ↔ (CleanPath a.path × IsDigest a.sha256)
  check_artifact_iff a = (
    λ e. ((path_iff a.path).0 (ground arith), (valid_hash_iff a.sha256).0 (ground arith)),
    λ h. ground (arith, (path_iff a.path).1 h.0, (valid_hash_iff a.sha256).1 h.1),
  )

  timed : (t : Timestamp) → t ≢ none → is_zero_time t ≡ false
  timed none n = absurd (n refl)
  timed (some x) n = refl

  identity_iff :
      (m : RunEvidenceManifest)
      → (bad_identity m ≡ false) ↔ (
          ((m.schema_version ≢ "") × (m.run_id ≢ "") × (m.sealed_at ≢ none))
          × All (λ d. valid_hash d ≡ true) (six_digests m))
  identity_iff m = (
    λ e. (
      (
        λ z. absurd (ground (arith, (==_iff m.schema_version "").1 z)),
        λ z. absurd (ground (arith, (==_iff m.run_id "").1 z)),
        λ z. absurd (ground (arith, ap is_zero_time z)),
      ),
      (
        ground arith,
        (ground arith, (ground arith, (ground arith, (ground arith, (ground arith, tt))))),
      ),
    ),
    λ ((version, run, sealed), (a, (b, (c, (d, (h, (r, last))))))). ground (
      arith,
      ==_eq-false m.schema_version "" version,
      ==_eq-false m.run_id "" run,
      timed m.sealed_at sealed,
      a,
      b,
      c,
      d,
      h,
      r,
    ),
  )

  once_iff :
      (m : RunEvidenceManifest)
      → (check_once
            (λ a. a.path)
            "duplicate artifact path"
            check_artifact
            (λ a. pass)
            []
            m.artifacts
          ≡ pass)
        ↔ (All (λ a. (check_artifact a ≡ pass) × (pass ≡ pass)) m.artifacts
            × Distinct (λ a. a.path) m.artifacts)
  once_iff m =
      check_once_iff (λ a. a.path) "duplicate artifact path" check_artifact (λ a. pass) m.artifacts

  All-check_all :
      {A : Type 0} (check : A → Check) (xs : List A)
      → All (λ x. check x ≡ pass) xs
      → check_all check xs ≡ pass
  All-check_all check [] h = refl
  All-check_all check (x ∷ xs) h = rw h.0 (All-check_all check xs h.1)

  -- A run's evidence manifest is accepted exactly if it has a schema version, a run and a sealing
  -- time, its six digests are 64 lower-case hexadecimal digits each, each of its raw chain heads
  -- has a source and is such a digest, and its artifacts have such digests and different paths,
  -- each of which is in clean form, neither empty nor ".", starts with neither "/" nor "../", and
  -- has no backslash.
  pub evidence-IsManifest_iff :
      (m : RunEvidenceManifest) → (validate_evidence_manifest m ≡ pass) ↔ IsManifest m
  unfolding validate_evidence_manifest
  evidence-IsManifest_iff m = (accepts, valid)
    where
      accepts : validate_evidence_manifest m ≡ pass → IsManifest m
      accepts e =
          let (a, e1) = >>-eq-ok (reject (bad_identity m) _) _ e in
          let (b, e2) = >>-eq-ok (check_all check_head m.raw_chain_heads) _ e1 in
          let (artifacts, distinct) = (once_iff m).0 e2 in
          let (identified, bound) = (identity_iff m).0 (reject-eq-pass _ _ a) in
          record {
            identified = identified;
            bound = All-map _ _ (λ d. (valid_hash_iff d).0) (six_digests m) bound;
            chained =
                All-map _ _ (λ h. (check_head_iff h).0) m.raw_chain_heads
                  (check_all-All check_head m.raw_chain_heads b);
            digested = All-map _ _ (λ x h. (check_artifact_iff x).0 h.0) m.artifacts artifacts;
            distinct = distinct;
          }

      valid : IsManifest m → validate_evidence_manifest m ≡ pass
      valid h =
          rw
            (
              (identity_iff m).1
                  (h.identified, All-map _ _ (λ d. (valid_hash_iff d).1) (six_digests m) h.bound),
              All-check_all check_head m.raw_chain_heads
                  (All-map _ _ (λ x. (check_head_iff x).1) m.raw_chain_heads h.chained),
            )
            ((once_iff m).1 (
              All-map _ _ (λ x v. ((check_artifact_iff x).1 v, refl)) m.artifacts h.digested,
              h.distinct,
            ))
