-- ===== src/Tests/Manifests.antt =====
-- Witness for the evidence manifest of internal/evidence/raw.go.
use harness_trajectory_bench.Prelude.{
  ◌≡◌, ◌↔◌, some, [], ◌∷◌, nat_eq, string_eq, bool_eq, list_eq, pair_eq, pass, pos,
}
use harness_trajectory_bench.Evidence.Manifest.{
  RunEvidenceManifest, validate_evidence_manifest, IsManifest, evidence-IsManifest_iff,
}
use harness_trajectory_bench.Tests.Records.{seed}

abbrev manifest : RunEvidenceManifest
manifest = record {
  schema_version = "v1";
  run_id = "run-a";
  run_spec_digest = seed;
  observation_plan_digest = seed;
  capability_manifest_digest = seed;
  sensor_health_digest = seed;
  tracked_event_chain_head = seed;
  raw_chain_heads = ("process/boot", seed) ∷ [];
  artifacts = record { path = "raw/process.jsonl"; sha256 = seed; size = 10 } ∷ [];
  merkle_root = seed;
  signature = "";
  signature_format = "";
  sealed_at = some (pos 5);
}

evidence-IsManifest_iff_example :
    (validate_evidence_manifest (λ path. path) manifest ≡ pass) ↔ IsManifest (λ path. path) manifest
evidence-IsManifest_iff_example = evidence-IsManifest_iff (λ path. path) manifest
