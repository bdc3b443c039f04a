-- ===== src/Tests/Contracts.antt =====
-- A verified run's contract, and the theorems on it.
use harness_trajectory_bench.Prelude.{
  String, ◌≡◌, refl, ◌↔◌, ◌⊎◌, true, false, [], ◌∷◌, nat_eq, string_eq, bool_eq, list_eq, pair_eq,
  All, err, pass, contains, lookup, insert,
}
use harness_trajectory_bench.Contracts.Plan.{
  RunSpec, ObservationPlan, Capability, CapabilityManifest, validate_plan, validate_manifest,
  validate_plan_against_manifest,
}
use harness_trajectory_bench.Contracts.Health.{
  SensorSourceHealth, SensorHealth, verified_eligible, validate_verified_run,
}
use harness_trajectory_bench.Contracts.Plan.{
  validate_run_spec, validate_requirement, observation_rank, enforcement_rank, validate_capability,
  verified_invariant, check_requirement, by_family,
}
use harness_trajectory_bench.Contracts.Health.{validate_health, check_source, valid_sequence_range}
use harness_trajectory_bench.Events.Helpers.{is_sha256}
use harness_trajectory_bench.Contracts.Coverage.{Covered, Strict, plan_accepted_iff}
use harness_trajectory_bench.Contracts.Eligible.{
  Eligible, verified_eligible_iff, IsVerified, IsVerified-run_iff,
}

abbrev digest : String
digest = "0123456789abcdef0123456789abcdef0123456789abcdef0123456789abcdef"

abbrev spec : RunSpec
spec = record {
  schema_version = "v1";
  run_id = "run";
  harness_digest = digest;
  benchmark_digest = digest;
  policy_digest = digest;
  profile = "verified.v1";
  verified = true;
  labels = [];
}

abbrev plan : ObservationPlan
plan = record {
  schema_version = "v1";
  requirements =
      record {
        event_family = "network";
        minimum_observation = "best_effort";
        minimum_enforcement = "eventual";
        retention = "full";
        required_for_verified_run = true;
      }
      ∷ [];
  sensor_configs = [];
  plaintext_required = true;
  preserve_destinations = true;
  opaque_traffic_policy = "deny";
}

abbrev offered : Capability
offered = record {
  event_family = "network";
  observation = "complete";
  enforcement = "synchronous";
  retention = "full";
  details = [];
}

abbrev manifest : CapabilityManifest
manifest = record {
  schema_version = "v1";
  backend = "gvisor";
  version = "1";
  trust_domain = "host";
  capabilities = record offered { event_family = "files" } ∷ offered ∷ [];
  digest = "";
}

-- An observation that is too weak.
abbrev weak : CapabilityManifest
weak = record manifest { capabilities = record offered { observation = "sampled" } ∷ [] }

abbrev source : SensorSourceHealth
source = record {
  sensor_id = "s";
  boot_id = "b";
  expected_start = 1;
  expected_end = 9;
  observed_start = 1;
  observed_end = 9;
  gaps = 0;
  duplicates = 0;
  drops = 0;
  parse_failures = 0;
  plaintext_failures = 0;
  stream_gaps = 0;
  unreconciled_flows = 0;
  started = true;
  drained = true;
  stopped = true;
}

abbrev health : SensorHealth
health = record {
  schema_version = "v1";
  sources = source ∷ [];
  appender_drops = 0;
  opaque_connections = 0;
}

abbrev same : String → String
same s = s

run_accepted : validate_verified_run same spec plan manifest health ≡ pass
unfolding validate_verified_run validate_run_spec is_sha256 validate_plan_against_manifest
    validate_plan validate_requirement observation_rank enforcement_rank contains validate_manifest
    validate_capability verified_invariant check_requirement lookup by_family insert
    verified_eligible validate_health check_source valid_sequence_range
run_accepted = refl

weak_refused :
    validate_plan_against_manifest plan weak true
    ≡ err "capability observation does not meet requirement"
unfolding validate_plan_against_manifest validate_plan validate_requirement observation_rank
    enforcement_rank contains validate_manifest validate_capability verified_invariant
    check_requirement lookup by_family insert
weak_refused = refl

plan_accepted_iff_example : (validate_plan_against_manifest plan manifest true ≡ pass) ↔ (
    (validate_plan plan ≡ pass)
    × (validate_manifest manifest ≡ pass)
    × ((true ≡ false) ⊎ Strict plan)
    × All (Covered manifest.capabilities true) plan.requirements)
plan_accepted_iff_example = plan_accepted_iff plan manifest true

verified_eligible_iff_example : (verified_eligible health ≡ pass) ↔ Eligible health
verified_eligible_iff_example = verified_eligible_iff health

IsVerified-run_iff_example :
    (validate_verified_run same spec plan manifest health ≡ pass)
    ↔ IsVerified same spec plan manifest health
IsVerified-run_iff_example = IsVerified-run_iff same spec plan manifest health
