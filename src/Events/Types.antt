-- ===== src/Events/Types.antt =====
-- pkg/events/events.go: the envelope and the typed payloads that validation reads. JSON text is
-- `Bytes`; a pointer is an `Option`; a floating-point number is kept as its JSON text.
use harness_trajectory_bench.Prelude.{ℕ, String, Bool, List, Option, Bytes, ℤ}

pub record TrackedEvent : Type 0 where
  pub seq : ℕ  -- uint64
  pub time : ℤ  -- int64
  pub event_type : String
  pub raw_data : Bytes
  pub ignorable : Bool
  pub source_event_seqs : List ℕ
  pub surface_op : Bytes

pub record ReplaceSurfaceOp : Type 0 where
  pub op : String
  pub start : ℕ
  pub end : ℕ

pub record ContentBlock : Type 0 where
  pub block_type : String
  pub text : String
  pub id : String
  pub name : String
  pub arguments : String
  pub tool_call_id : String
  pub is_error : Option Bool
  pub attachment : Bytes
  pub content : Bytes

pub record MessageSource : Type 0 where
  pub kind : String
  pub plugin : String
  pub form : String
  pub call_id : String
  pub provider : String
  pub model : String
  pub replay_state : Bytes
  pub sections : Bytes
  pub summary : String

pub record Message : Type 0 where
  pub id : String
  pub role : String
  pub content : List ContentBlock
  pub source : MessageSource

pub record TokenUsage : Type 0 where
  pub input_tokens : Option ℕ
  pub cache_read_tokens : Option ℕ
  pub cache_write_tokens : Option ℕ
  pub output_tokens : Option ℕ
  pub reasoning_tokens : Option ℕ
  pub total_tokens : Option ℕ

pub record TurnStartData : Type 0 where
  pub turn : ℕ

pub record UserMessageData : Type 0 where
  pub id : String
  pub role : String
  pub content : List ContentBlock
  pub source : MessageSource

pub record ToolSchema : Type 0 where
  pub name : String
  pub description : String
  pub parameters : Bytes

pub record LlmCallConfig : Type 0 where
  pub temperature : Option Bytes
  pub max_tokens : Option ℕ
  pub reasoning_effort : String
  pub stop : List String

pub record RequestHeader : Type 0 where
  pub system : String
  pub tools : List ToolSchema
  pub config : LlmCallConfig
  pub adapter_defaults : LlmCallConfig

pub record RequestHeaderData : Type 0 where
  pub header : RequestHeader
  pub reason : String
  pub starts_series : Bool

pub record RequestContextData : Type 0 where
  pub provider : String
  pub model : String
  pub context_window : ℕ

pub record RetryFailure : Type 0 where
  pub code : String
  pub message : String

pub record LlmRetryData : Type 0 where
  pub retry : ℕ
  pub max_retries : ℕ
  pub delay_ms : ℕ
  pub failure : RetryFailure

pub record StepData : Type 0 where
  pub turn : ℕ
  pub step : ℕ

pub record AssistantChunkData : Type 0 where
  pub turn : ℕ
  pub step : ℕ
  pub chunk : Bytes

pub record AssistantMessageData : Type 0 where
  pub turn : ℕ
  pub step : ℕ
  pub message : Message
  pub usage : Option TokenUsage
  pub interrupted : Bool

pub record ToolCallData : Type 0 where
  pub turn : ℕ
  pub step : ℕ
  pub call_id : String
  pub name : String
  pub arguments : String

pub record ToolResultData : Type 0 where
  pub turn : ℕ
  pub step : ℕ
  pub message : Message
  pub error : Bytes
  pub meta : Bytes

pub record TurnEndData : Type 0 where
  pub turn : ℕ
  pub reason : Bytes

pub record CompactionData : Type 0 where
  pub start_seq : ℕ
  pub end_seq : ℕ
  pub summary : List ContentBlock

-- A fact about an earlier immutable event.
pub record CorrectionData : Type 0 where
  pub supersedes_seq : ℕ
  pub reason : String
  pub corrected : Bytes

-- The reason object of `turn/end`.
pub record TurnEndReason : Type 0 where
  pub kind : String
