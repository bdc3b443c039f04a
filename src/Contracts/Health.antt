-- ===== src/Contracts/Health.antt =====
-- pkg/backend/contracts.go: sensor health; internal/profile/verified.go.
use harness_trajectory_bench.Prelude.{
  ℕ, String, Bool, true, ◌&&◌, ◌||◌, not, List, [], ltb, leb, ◌==◌, ◌!=◌, nat_eq, string_eq,
  bool_eq, list_eq, pair_eq, Check, ◌>>◌, reject, check_all, check_once,
}
use harness_trajectory_bench.Contracts.Plan.{
  RunSpec, ObservationPlan, CapabilityManifest, validate_run_spec, verified_invariant,
  validate_plan_against_manifest,
}

pub record SensorSourceHealth : Type 0 where
  pub sensor_id : String
  pub boot_id : String
  pub expected_start : ℕ
  pub expected_end : ℕ
  pub observed_start : ℕ
  pub observed_end : ℕ
  pub gaps : ℕ
  pub duplicates : ℕ
  pub drops : ℕ
  pub parse_failures : ℕ
  pub plaintext_failures : ℕ
  pub stream_gaps : ℕ
  pub unreconciled_flows : ℕ
  pub started : Bool
  pub drained : Bool
  pub stopped : Bool

pub record SensorHealth : Type 0 where
  pub schema_version : String
  pub sources : List SensorSourceHealth
  pub appender_drops : ℕ
  pub opaque_connections : ℕ

unfoldable pub valid_sequence_range : ℕ → ℕ → Bool
valid_sequence_range start end = ((start == 0) && (end == 0)) || (ltb 0 start && leb start end)

abbrev pub source_identity : SensorSourceHealth → String × String
source_identity s = (s.sensor_id, s.boot_id)

abbrev pub check_identity : SensorSourceHealth → Check
check_identity s =
    reject ((s.sensor_id == "") || (s.boot_id == "")) "invalid or duplicate sensor source"

abbrev pub check_ranges : SensorSourceHealth → Check
check_ranges s = do
  reject (not (valid_sequence_range s.expected_start s.expected_end))
      "invalid expected range for sensor"
  reject (not (valid_sequence_range s.observed_start s.observed_end))
      "invalid observed range for sensor"

unfoldable pub validate_health : SensorHealth → Check
validate_health h = do
  reject (h.schema_version == "") "sensor health requires schemaVersion"
  check_once source_identity "invalid or duplicate sensor source" check_identity check_ranges []
      h.sources

unfoldable pub check_source : SensorSourceHealth → Check
check_source s = do
  reject
      (not s.started
        || not s.drained
        || not s.stopped
        || (s.gaps != 0)
        || (s.duplicates != 0)
        || (s.drops != 0)
        || (s.parse_failures != 0)
        || (s.plaintext_failures != 0)
        || (s.stream_gaps != 0)
        || (s.unreconciled_flows != 0))
      "sensor is not verified-healthy"
  reject ((s.expected_start != s.observed_start) || (s.expected_end != s.observed_end))
      "sensor observed range does not match expected range"

-- `VerifiedEligible`
unfoldable pub verified_eligible : SensorHealth → Check
verified_eligible h = do
  validate_health h
  reject ((h.appender_drops != 0) || (h.opaque_connections != 0))
      "health contains appender drops or opaque connections"
  check_all check_source h.sources

abbrev pub verified_name : String
verified_name = "verified.v1"

unfoldable pub validate_verified_run :
    (String → String) → RunSpec → ObservationPlan → CapabilityManifest → SensorHealth → Check
validate_verified_run trim_space spec plan capabilities health = do
  reject (not spec.verified) "run is not declared verified"
  reject (spec.profile != verified_name) "run does not declare the verified.v1 profile"
  validate_run_spec trim_space spec
  verified_invariant plan
  validate_plan_against_manifest plan capabilities true
  verified_eligible health
