-- ===== src/Events/Validate.antt =====
-- pkg/events/validate.go: the event vocabulary and the validation of one envelope.
use text.Mathlib.Text.{starts_with}
use harness_trajectory_bench.Prelude.{
  String, Bool, true, false, ◌&&◌, ◌||◌, not, Option, none, some, List, [], ◌∷◌, ltb, if◌then◌else◌,
  ◌==◌, ◌!=◌, nat_eq, string_eq, bool_eq, list_eq, pair_eq, Bytes, is_nil, Check, pass, ◌>>=◌, ◌>>◌,
  reject, or_fail, is_negative, is_zero_time,
}
use harness_trajectory_bench.Hex.{Sha256}
use harness_trajectory_bench.Events.Types.{TrackedEvent}
use harness_trajectory_bench.Events.Observed.{
  Source, Observation, Evidence, OpenAiCompatibleExchange, UsageQuality,
}
use harness_trajectory_bench.Events.Codec.{Codec}
use harness_trajectory_bench.Events.Helpers.{
  one_of, is_sha256, is_json_object, valid_usage_quality, validate_surface_op,
}
use harness_trajectory_bench.Events.Content.{is_none, validate_network_plaintext}
use harness_trajectory_bench.Events.Core.{core_event_types, validate_core}

abbrev pub extension_event_types : List String
extension_event_types =
    "run/start" ∷ "run/observation-plan" ∷ "backend/prepared" ∷ "backend/started"
    ∷ "backend/stopped" ∷ "backend/snapshot" ∷ "run/finish" ∷ "sensor/start" ∷ "sensor/heartbeat"
    ∷ "sensor/stop" ∷ "sensor/restart" ∷ "sensor/gap" ∷ "sensor/drop" ∷ "sensor/saturation"
    ∷ "sensor/parse-failure" ∷ "sensor/clock-skew" ∷ "sensor/bypass-attempt" ∷ "process/create"
    ∷ "process/exec" ∷ "process/exit" ∷ "process/signal" ∷ "process/credential-change"
    ∷ "resource/sample" ∷ "policy/decision" ∷ "system/log" ∷ "stdio/chunk" ∷ "file/open"
    ∷ "file/read" ∷ "file/write" ∷ "file/close" ∷ "file/rename" ∷ "file/delete"
    ∷ "file/metadata-change" ∷ "file/executable-map" ∷ "file/snapshot-diff" ∷ "ipc/pipe-create"
    ∷ "ipc/read" ∷ "ipc/write" ∷ "ipc/unix-connect" ∷ "ipc/unix-accept" ∷ "ipc/shared-memory"
    ∷ "dns/query" ∷ "dns/response" ∷ "network/socket-create" ∷ "network/bind" ∷ "network/listen"
    ∷ "network/connect" ∷ "network/accept" ∷ "network/flow-open" ∷ "network/flow-update"
    ∷ "network/flow-close" ∷ "network/plaintext" ∷ "network/plaintext-failure"
    ∷ "network/packet-batch" ∷ "network/route-decision" ∷ "tls/session" ∷ "http/request"
    ∷ "http/response" ∷ "model/request" ∷ "model/stream-chunk" ∷ "model/response" ∷ "model/usage"
    ∷ "mcp/request" ∷ "mcp/response" ∷ "mcp/notification" ∷ "mcp/tool-call" ∷ "mcp/tool-result"
    ∷ "benchmark/start" ∷ "benchmark/finish" ∷ "verifier/start" ∷ "verifier/result"
    ∷ "artifact/created" ∷ "evidence/checkpoint" ∷ "evidence/sealed" ∷ "correction/event"
    ∷ "event/correction" ∷ []

abbrev pub observation_prefixes : List String
observation_prefixes =
    "sensor/" ∷ "process/" ∷ "resource/" ∷ "policy/" ∷ "system/" ∷ "stdio/" ∷ "file/" ∷ "ipc/"
    ∷ "dns/" ∷ "network/" ∷ "tls/" ∷ "http/" ∷ "model/" ∷ "mcp/" ∷ "verifier/" ∷ []

abbrev has_prefix : String → List String → Bool
has_prefix t [] = false
has_prefix t (p ∷ ps) = starts_with t p || has_prefix t ps

unfoldable pub is_observation_type : String → Bool
is_observation_type t = has_prefix t observation_prefixes

unfoldable pub is_known_type : String → Bool
is_known_type t = one_of t core_event_types || one_of t extension_event_types

abbrev pub missing {ℓ} : {A : Type ℓ} → (A → Bool) → Option A → Bool
missing bad none = true
missing bad (some a) = bad a

abbrev incomplete_source : Source → Bool
incomplete_source s =
    (s.sensor_id == "")
    || (s.sensor_type == "")
    || (s.backend == "")
    || (s.backend_version == "")
    || (s.boot_id == "")
    || (s.source_seq == 0)
    || (s.trust_domain == "")

abbrev incomplete_timing : Observation → Bool
incomplete_timing o = (o.clock_id == "") || is_zero_time o.received_time

unfoldable pub incomplete_evidence : Evidence → Bool
incomplete_evidence e =
    not (is_sha256 e.raw_record_sha256)
    || (e.raw_stream_id == "")
    || (e.raw_source_seq_start == 0)
    || ltb e.raw_source_seq_end e.raw_source_seq_start
    || not (is_sha256 e.normalizer_sha256)
    || (e.normalizer_version == "")
    || (e.observation_layer == "")
    || (e.observation_method == "")

abbrev incomplete_exchange : Codec → OpenAiCompatibleExchange → Bool
incomplete_exchange json x =
    (x.schema != "openai.chat-completions.v1")
    || (x.provider == "")
    || (x.provider_model == "")
    || (x.endpoint == "")
    || (x.model_exchange_id == "")
    || is_nil x.body
    || not (json.valid x.body)

abbrev incomplete_quality : UsageQuality → Bool
incomplete_quality q =
    not (valid_usage_quality q.input_tokens)
    || not (valid_usage_quality q.output_tokens)
    || not (valid_usage_quality q.cache_read_tokens)
    || not (valid_usage_quality q.cache_write_tokens)
    || not (valid_usage_quality q.reasoning_tokens)
    || not (valid_usage_quality q.total_tokens)

abbrev pub model_types : List String
model_types = "model/request" ∷ "model/stream-chunk" ∷ "model/response" ∷ []

module _ (json : Codec) where
  unfoldable pub validate_evidence : Bytes → Check
  unfolding incomplete_evidence
  validate_evidence raw = do
    probe ← or_fail (json.evidence_probe raw) "json"
    reject
        ((probe.run_id == "")
          || is_none probe.source
          || is_none probe.observation
          || not (is_json_object json probe.details))
        "observation-backed event requires runId, source, observation, and details"
    reject (missing incomplete_source probe.source) "incomplete source identity"
    reject (missing incomplete_timing probe.observation) "incomplete observation timing"
    reject (is_none probe.evidence) "observation-backed event requires data.evidence"
    reject (missing incomplete_evidence probe.evidence) "incomplete evidence reference"

  validate_observation : TrackedEvent → Check
  unfolding validate_evidence
  validate_observation e = do
    reject (not e.ignorable) "observation event must be ignorable"
    validate_evidence e.raw_data

  validate_plaintext : Sha256 → TrackedEvent → Check
  validate_plaintext hash e = do
    details ← or_fail (json.plaintext_details e.raw_data) "json"
    validate_network_plaintext json hash details

  validate_exchange : TrackedEvent → Check
  validate_exchange e = do
    x ← or_fail (json.exchange_details e.raw_data) "json"
    reject (incomplete_exchange json x) "invalid OpenAI-compatible model exchange"

  validate_usage : TrackedEvent → Check
  validate_usage e = do
    details ← or_fail (json.usage_details e.raw_data) "json"
    reject (incomplete_quality details.quality) "model/usage requires quality for every counter"

  unfoldable pub validate_event : Sha256 → TrackedEvent → Check
  unfolding is_known_type is_observation_type validate_observation validate_plaintext
      validate_exchange validate_usage
  validate_event hash e = do
    reject (e.seq == 0) "seq must be positive"
    reject (is_negative e.time) "time must be unix epoch milliseconds"
    reject (e.event_type == "") "type is required"
    reject (not (is_json_object json e.raw_data)) "data must be a JSON object"
    validate_surface_op json e.surface_op
    reject (not (is_known_type e.event_type) && not e.ignorable)
        "unknown event type must be ignorable"
    reject (one_of e.event_type extension_event_types && not e.ignorable)
        "extension event must be ignorable"
    if is_observation_type e.event_type then validate_observation e else pass
    if e.event_type == "network/plaintext" then validate_plaintext hash e else pass
    if one_of e.event_type model_types then validate_exchange e else pass
    if e.event_type == "model/usage" then validate_usage e else pass
    validate_core json e.event_type e.raw_data
