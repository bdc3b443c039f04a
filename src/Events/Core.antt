-- ===== src/Events/Core.antt =====
-- pkg/events/validate.go: the payloads of the conversation's own event types.
use harness_trajectory_bench.Prelude.{
  ℕ, String, ◌||◌, not, List, [], ◌∷◌, ltb, if◌then◌else◌, ◌==◌, ◌!=◌, nat_eq, string_eq, bool_eq,
  list_eq, pair_eq, Bytes, length, is_nil, Check, pass, ◌>>=◌, ◌>>◌, reject, or_fail, check_all,
  contains, utf8,
}
use harness_trajectory_bench.Events.Types.{ContentBlock, ToolSchema}
use harness_trajectory_bench.Events.Codec.{Codec}
use harness_trajectory_bench.Events.Helpers.{one_of, decode_strict, is_json_object}
use harness_trajectory_bench.Events.Content.{validate_content}

abbrev pub core_event_types : List String
core_event_types =
    "turn/start" ∷ "user/message" ∷ "request/header" ∷ "request/context" ∷ "llm/retry"
    ∷ "step/start" ∷ "assistant/chunk" ∷ "assistant/message" ∷ "tool/call" ∷ "tool/result"
    ∷ "step/end" ∷ "turn/end" ∷ "compaction/start" ∷ "compaction/summary" ∷ "compaction/end"
    ∷ "session/end-seed" ∷ []

abbrev pub required : String → Check
required s = reject (s == "") "field is required"

-- The nesting of content blocks.
abbrev pub content_fuel : ℕ
content_fuel = 2

abbrev first_tool_call_id : List ContentBlock → String
first_tool_call_id [] = ""
first_tool_call_id (b ∷ bs) = b.tool_call_id

module _ (json : Codec) where
  validate_turn_start : Bytes → Check
  validate_turn_start raw = do
    d ← decode_strict json json.turn_start raw
    reject (d.turn == 0) "turn must be positive"

  validate_user_message : List String → Bytes → Check
  validate_user_message keys raw = do
    d ← decode_strict json json.user_message raw
    required d.id
    reject (d.role != "user") "user/message role must be user"
    required d.source.kind
    reject (not (contains keys "content")) "content is required"
    validate_content json content_fuel ("text" ∷ "image" ∷ []) d.content

  validate_tool_schema : ToolSchema → Check
  validate_tool_schema tool =
      reject
        ((tool.name == "") || (tool.description == "") || not (is_json_object json tool.parameters))
        "invalid request tool schema"

  validate_request_header : List String → Bytes → Check
  validate_request_header keys raw = do
    d ← decode_strict json json.request_header raw
    reject (not (contains keys "header") || (d.reason == "")) "header and reason are required"
    reject (not (one_of d.reason ("initial" ∷ "resume" ∷ "change" ∷ "series" ∷ [])))
        "invalid request header reason"
    check_all validate_tool_schema d.header.tools

  validate_request_context : Bytes → Check
  validate_request_context raw = do
    d ← decode_strict json json.request_context raw
    reject ((d.provider == "") || (d.model == "") || (d.context_window == 0))
        "provider, model, and positive contextWindow are required"

  validate_llm_retry : Bytes → Check
  validate_llm_retry raw = do
    d ← decode_strict json json.llm_retry raw
    reject ((d.retry == 0) || (d.max_retries == 0) || (d.failure.code == ""))
        "retry, maxRetries, and failure.code are required"

  validate_step : Bytes → Check
  validate_step raw = do
    d ← decode_strict json json.step raw
    reject ((d.turn == 0) || (d.step == 0)) "turn and step must be positive"

  validate_assistant_chunk : Bytes → Check
  validate_assistant_chunk raw = do
    d ← decode_strict json json.assistant_chunk raw
    reject ((d.turn == 0) || (d.step == 0) || not (is_json_object json d.chunk))
        "turn, step, and chunk are required"

  validate_assistant_message : Bytes → Check
  validate_assistant_message raw = do
    d ← decode_strict json json.assistant_message raw
    reject
        ((d.turn == 0) || (d.step == 0) || (d.message.id == "") || (d.message.role != "assistant"))
        "turn, step, and assistant message are required"
    reject
        ((d.message.source.kind != "model")
          || (d.message.source.provider == "")
          || (d.message.source.model == ""))
        "assistant message requires model source"
    validate_content json content_fuel ("text" ∷ "reasoning" ∷ "tool-call" ∷ []) d.message.content

  validate_tool_call : Bytes → Check
  validate_tool_call raw = do
    d ← decode_strict json json.tool_call raw
    reject ((d.turn == 0) || (d.step == 0) || (d.call_id == "") || (d.name == ""))
        "turn, step, callId, and name are required"
    reject (not (json.valid (utf8 d.arguments))) "tool arguments must be valid JSON"

  validate_tool_result : Bytes → Check
  validate_tool_result raw = do
    d ← decode_strict json json.tool_result raw
    reject
        ((d.turn == 0)
          || (d.step == 0)
          || (d.message.id == "")
          || (d.message.role != "user")
          || (d.message.source.kind != "tool")
          || (d.message.source.call_id == ""))
        "tool result requires a user/tool message with callId"
    reject (length d.message.content != 1) "tool result requires exactly one content block"
    validate_content json content_fuel ("tool-result" ∷ []) d.message.content
    reject (first_tool_call_id d.message.content != d.message.source.call_id)
        "tool result call identifiers do not match"

  validate_turn_end : Bytes → Check
  validate_turn_end raw = do
    d ← decode_strict json json.turn_end raw
    reject ((d.turn == 0) || not (is_json_object json d.reason)) "turn and reason are required"
    reason ← or_fail (json.turn_end_reason d.reason) "invalid turn end reason"
    reject
        (not (
          one_of reason.kind
            ("completed" ∷ "aborted" ∷ "error" ∷ "max-tokens" ∷ "interrupted" ∷ [])))
        "invalid turn end reason"

  validate_compaction : Bytes → Check
  validate_compaction raw = do
    d ← decode_strict json json.compaction raw
    reject ((d.start_seq == 0) || (d.end_seq == 0) || ltb d.end_seq d.start_seq)
        "compaction range must be non-empty and ordered"

  -- A `null` payload is no object, so the decoded map is never nil here.
  validate_end_seed : List String → Check
  validate_end_seed keys = reject (not (is_nil keys)) "session/end-seed data must be empty object"

  -- The `switch` on the type of a core event.
  unfoldable pub core_payload : String → List String → Bytes → Check
  unfolding validate_turn_start validate_user_message validate_tool_schema validate_request_header
      validate_request_context validate_llm_retry validate_step validate_assistant_chunk
      validate_assistant_message validate_tool_call validate_tool_result validate_turn_end
      validate_compaction validate_end_seed
  core_payload t keys raw =
      if t == "turn/start"
      then validate_turn_start raw
      else if t == "user/message"
      then validate_user_message keys raw
      else if t == "request/header"
      then validate_request_header keys raw
      else if t == "request/context"
      then validate_request_context raw
      else if t == "llm/retry"
      then validate_llm_retry raw
      else if one_of t ("step/start" ∷ "step/end" ∷ [])
      then validate_step raw
      else if t == "assistant/chunk"
      then validate_assistant_chunk raw
      else if t == "assistant/message"
      then validate_assistant_message raw
      else if t == "tool/call"
      then validate_tool_call raw
      else if t == "tool/result"
      then validate_tool_result raw
      else if t == "turn/end"
      then validate_turn_end raw
      else if one_of t ("compaction/start" ∷ "compaction/summary" ∷ "compaction/end" ∷ [])
      then validate_compaction raw
      else if t == "session/end-seed"
      then validate_end_seed keys
      else pass

  unfoldable pub validate_core : String → Bytes → Check
  unfolding core_payload
  validate_core t raw =
      if one_of t core_event_types
      then (do
        reject (not (is_json_object json raw)) "data must be a JSON object"
        keys ← or_fail (json.keys raw) "json"
        core_payload t keys raw)
      else pass
