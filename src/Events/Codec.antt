-- ===== src/Events/Codec.antt =====
-- `encoding/json`, `encoding/base64` and `bytes.TrimSpace` as the program uses them. They are
-- parameters: what one call of `json.Unmarshal`, or of a strict `Decoder.Decode`, does for each
-- payload type is a function into `Option`.
use harness_trajectory_bench.Prelude.{
  String, Bool, Option, List, nat_eq, string_eq, bool_eq, list_eq, pair_eq, Bytes,
}
use harness_trajectory_bench.Events.Types.{
  TrackedEvent, ReplaceSurfaceOp, ContentBlock, TurnStartData, UserMessageData, RequestHeaderData,
  RequestContextData, LlmRetryData, StepData, AssistantChunkData, AssistantMessageData,
  ToolCallData, ToolResultData, TurnEndData, TurnEndReason, CompactionData, CorrectionData,
}
use harness_trajectory_bench.Events.Observed.{
  EvidenceProbe, NetworkPlaintext, OpenAiCompatibleExchange, ModelUsage,
}

-- `Decoder.Decode(dst)` after `DisallowUnknownFields`: the value and the unread text.
abbrev pub Strict : Type 0 → Type 0
Strict A = Bytes → Option (A × Bytes)

-- `json.Unmarshal`.
abbrev pub Lenient : Type 0 → Type 0
Lenient A = Bytes → Option A

pub record Codec : Type 0 where
  pub valid : Bytes → Bool
  pub trim_space : Bytes → Bytes
  -- a further `Decode` reports `io.EOF`
  pub at_end : Bytes → Bool
  pub base64 : String → Option Bytes
  pub event : Lenient TrackedEvent
  pub marshal : TrackedEvent → Option Bytes
  pub text : Lenient String
  pub keys : Lenient (List String)
  pub replace_op : Strict ReplaceSurfaceOp
  pub replace_range : Lenient ReplaceSurfaceOp
  pub blocks : Lenient (List ContentBlock)
  pub turn_start : Strict TurnStartData
  pub user_message : Strict UserMessageData
  pub request_header : Strict RequestHeaderData
  pub request_context : Strict RequestContextData
  pub llm_retry : Strict LlmRetryData
  pub step : Strict StepData
  pub assistant_chunk : Strict AssistantChunkData
  pub assistant_message : Strict AssistantMessageData
  pub tool_call : Strict ToolCallData
  pub tool_result : Strict ToolResultData
  pub turn_end : Strict TurnEndData
  pub turn_end_reason : Lenient TurnEndReason
  pub compaction : Strict CompactionData
  pub correction : Lenient CorrectionData
  pub evidence_probe : Lenient EvidenceProbe
  pub plaintext_details : Lenient NetworkPlaintext
  pub exchange_details : Lenient OpenAiCompatibleExchange
  pub usage_details : Lenient ModelUsage
