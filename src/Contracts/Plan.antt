-- ===== src/Contracts/Plan.antt =====
-- pkg/backend/contracts.go: run specifications, observation plans and capability manifests.
use harness_trajectory_bench.Prelude.{
  String, Bool, true, false, ◌&&◌, ◌||◌, not, List, [], ◌∷◌, ltb, if◌then◌else◌, ◌==◌, ◌!=◌, nat_eq,
  string_eq, bool_eq, list_eq, pair_eq, Bytes, Check, pass, ◌>>=◌, ◌>>◌, reject, or_fail, check_all,
  lookup, insert, ℤ, pos, negsuc, is_negative, check_once,
}
use harness_trajectory_bench.Events.Helpers.{is_sha256}

abbrev pub opaque_traffic_deny : String
opaque_traffic_deny = "deny"

abbrev pub opaque_traffic_allow : String
opaque_traffic_allow = "allow"

pub record RunSpec : Type 0 where
  pub schema_version : String
  pub run_id : String
  pub harness_digest : String
  pub benchmark_digest : String
  pub policy_digest : String
  pub profile : String
  pub verified : Bool
  pub labels : List (String × String)

pub record ObservationRequirement : Type 0 where
  pub event_family : String
  pub minimum_observation : String
  pub minimum_enforcement : String
  pub retention : String
  pub required_for_verified_run : Bool

-- A sensor's configuration is JSON text.
pub record ObservationPlan : Type 0 where
  pub schema_version : String
  pub requirements : List ObservationRequirement
  pub sensor_configs : List Bytes
  pub plaintext_required : Bool
  pub preserve_destinations : Bool
  pub opaque_traffic_policy : String

pub record Capability : Type 0 where
  pub event_family : String
  pub observation : String
  pub enforcement : String
  pub retention : String
  pub details : List (String × String)

pub record CapabilityManifest : Type 0 where
  pub schema_version : String
  pub backend : String
  pub version : String
  pub trust_domain : String
  pub capabilities : List Capability
  pub digest : String

-- An unknown level has rank -1.
unfoldable pub observation_rank : String → ℤ
observation_rank s =
    if s == "complete"
    then pos 0
    else if s == "conditional"
    then pos 1
    else if s == "best_effort"
    then pos 2
    else if s == "sampled"
    then pos 3
    else if s == "aggregated"
    then pos 4
    else if s == "unsupported"
    then pos 5
    else negsuc 0

unfoldable pub enforcement_rank : String → ℤ
enforcement_rank s =
    if s == "synchronous"
    then pos 0
    else if s == "eventual"
    then pos 1
    else if s == "audit_only"
    then pos 2
    else if s == "unsupported"
    then pos 3
    else negsuc 0

abbrev pub valid_observation : String → Bool
valid_observation s = not (is_negative (observation_rank s))

abbrev pub valid_enforcement : String → Bool
valid_enforcement s = not (is_negative (enforcement_rank s))

-- `isSHA256` of this package is that of pkg/events, written again.
unfoldable pub validate_run_spec : (String → String) → RunSpec → Check
validate_run_spec trim_space r = do
  reject ((trim_space r.schema_version == "") || (trim_space r.run_id == ""))
      "run spec requires schemaVersion and runId"
  check_all
      (λ digest. reject (not (is_sha256 digest)) "run spec digest must be a sha256 hex digest")
      (r.harness_digest ∷ r.benchmark_digest ∷ r.policy_digest ∷ [])

unfoldable pub validate_requirement : ObservationRequirement → Check
validate_requirement r =
    reject
      ((r.event_family == "")
        || not (valid_observation r.minimum_observation)
        || not (valid_enforcement r.minimum_enforcement)
        || (r.retention == ""))
      "invalid observation requirement"

unfoldable pub validate_plan : ObservationPlan → Check
validate_plan p = do
  reject (p.schema_version == "") "observation plan requires schemaVersion"
  reject
      ((p.opaque_traffic_policy != opaque_traffic_deny)
        && (p.opaque_traffic_policy != opaque_traffic_allow))
      "invalid opaque traffic policy"
  check_once (λ r. r.event_family) "duplicate observation requirement" validate_requirement
      (λ r. pass) [] p.requirements

-- `VerifiedInvariant`
unfoldable pub verified_invariant : ObservationPlan → Check
verified_invariant p =
    reject
      (not p.plaintext_required
        || not p.preserve_destinations
        || (p.opaque_traffic_policy != opaque_traffic_deny))
      "verified run requires plaintext, destination preservation, and deny opaque traffic"

unfoldable pub validate_capability : Capability → Check
validate_capability c =
    reject
      ((c.event_family == "")
        || not (valid_observation c.observation)
        || not (valid_enforcement c.enforcement)
        || (c.retention == ""))
      "invalid capability"

unfoldable pub validate_manifest : CapabilityManifest → Check
validate_manifest m = do
  reject
      ((m.schema_version == "") || (m.backend == "") || (m.version == "") || (m.trust_domain == ""))
      "capability manifest requires schemaVersion, backend, version, and trustDomain"
  check_once (λ c. c.event_family) "duplicate capability" validate_capability (λ c. pass) []
      m.capabilities
  reject ((m.digest != "") && not (is_sha256 m.digest))
      "capability manifest digest must be sha256 hex"

-- `a > b` on ranks.
abbrev pub outranks : ℤ → ℤ → Bool
outranks (pos a) (pos b) = ltb b a
outranks (pos a) (negsuc b) = true
outranks (negsuc a) (pos b) = false
outranks (negsuc a) (negsuc b) = ltb a b

-- The map from families to capabilities: a later one takes the place of an earlier one.
unfoldable pub by_family : List Capability → List (String × Capability) → List (String × Capability)
by_family [] m = m
by_family (c ∷ cs) m = by_family cs (insert c.event_family c m)

unfoldable pub check_requirement :
    List (String × Capability) → Bool → ObservationRequirement → Check
check_requirement families verified requirement = do
  c ← or_fail (lookup requirement.event_family families) "backend lacks capability"
  reject
      (outranks (observation_rank c.observation) (observation_rank requirement.minimum_observation))
      "capability observation does not meet requirement"
  reject
      (outranks (enforcement_rank c.enforcement) (enforcement_rank requirement.minimum_enforcement))
      "capability enforcement does not meet requirement"
  reject
      (verified
        && requirement.required_for_verified_run
        && ((c.observation == "unsupported") || (c.enforcement == "unsupported")))
      "verified requirement unsupported"

unfoldable pub validate_plan_against_manifest : ObservationPlan → CapabilityManifest → Bool → Check
validate_plan_against_manifest plan manifest verified = do
  validate_plan plan
  validate_manifest manifest
  if verified then verified_invariant plan else pass
  check_all (check_requirement (by_family manifest.capabilities []) verified) plan.requirements
