-- ===== src/Events/Observed.antt =====
-- pkg/events/events.go: the payloads that sensors, normalizers and verifiers produce.
use harness_trajectory_bench.Prelude.{ℕ, String, Bool, Option, Bytes, Timestamp}

pub record Source : Type 0 where
  pub sensor_id : String
  pub sensor_type : String
  pub backend : String
  pub backend_version : String
  pub boot_id : String
  pub source_seq : ℕ
  pub trust_domain : String

pub record Observation : Type 0 where
  pub monotonic_ns : Option ℕ
  pub wall_time : Option Timestamp
  pub clock_id : String
  pub received_time : Timestamp

pub record Evidence : Type 0 where
  pub raw_record_sha256 : String
  pub raw_stream_id : String
  pub raw_source_seq_start : ℕ
  pub raw_source_seq_end : ℕ
  pub normalizer_sha256 : String
  pub normalizer_version : String
  pub observation_layer : String
  pub observation_method : String

-- The fields of an observation that `validateEvidence` probes.
pub record EvidenceProbe : Type 0 where
  pub run_id : String
  pub source : Option Source
  pub observation : Option Observation
  pub evidence : Option Evidence
  pub details : Bytes

pub record NetworkEndpoint : Type 0 where
  pub ip : String
  pub port : ℕ  -- uint16
  pub hostname : String

pub record ProtocolIdentity : Type 0 where
  pub name : String
  pub version : String
  pub media_type : String

pub record ArtifactSlice : Type 0 where
  pub artifact_id : String
  pub offset : ℕ
  pub length : ℕ

pub record CapturedBytes : Type 0 where
  pub encoding : String
  pub inline : String
  pub artifact : Option ArtifactSlice
  pub length : ℕ
  pub sha256 : String

pub record PlaintextCapture : Type 0 where
  pub method : String
  pub backend : String
  pub original_security_protocol : String
  pub key_material_digest : String
  pub verified : Bool

pub record NetworkPlaintext : Type 0 where
  pub boundary : String
  pub capture_point : String
  pub connection_id : String
  pub stream_id : String
  pub transport : String
  pub direction : String
  pub sequence : ℕ
  pub offset : Option ℕ
  pub end_of_stream : Bool
  pub source : NetworkEndpoint
  pub destination : NetworkEndpoint
  pub protocol : ProtocolIdentity
  pub payload : CapturedBytes
  pub capture : PlaintextCapture

pub record OpenAiCompatibleExchange : Type 0 where
  pub schema : String
  pub provider : String
  pub provider_model : String
  pub endpoint : String
  pub request_id : String
  pub model_exchange_id : String
  pub body : Bytes
  pub extensions : Bytes

pub record UsageQuality : Type 0 where
  pub input_tokens : String
  pub output_tokens : String
  pub cache_read_tokens : String
  pub cache_write_tokens : String
  pub reasoning_tokens : String
  pub total_tokens : String

pub record ModelUsage : Type 0 where
  pub input_tokens : Option ℕ
  pub output_tokens : Option ℕ
  pub cache_read_tokens : Option ℕ
  pub cache_write_tokens : Option ℕ
  pub reasoning_tokens : Option ℕ
  pub total_tokens : Option ℕ
  pub quality : UsageQuality
