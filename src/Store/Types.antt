-- ===== src/Store/Types.antt =====
-- internal/api/types.go and the records of internal/api/server.go and internal/api/persistence.go.
use harness_trajectory_bench.Prelude.{
  ℕ, String, ◌≡◌, Bool, false, Option, none, some, List, ◌∷◌, ◌++◌, Bytes, Result, ok, err, Check,
  lookup, Timestamp, [], nat_eq, string_eq, bool_eq, list_eq, pair_eq,
}
use harness_trajectory_bench.Events.Types.{TrackedEvent}

pub record RunSpec : Type 0 where
  pub schema_version : String
  pub harness : String
  pub suite : String
  pub backend : String
  pub parameters : List (String × Bytes)  -- raw JSON
  pub verified : Bool

pub record CreateRunRequest : Type 0 where
  pub spec : RunSpec
  pub idempotency_key : String

pub record LifecycleMutation : Type 0 where
  pub action : String
  pub idempotency_key : String
  pub reason : String

pub record Run : Type 0 where
  pub id : String
  pub spec : RunSpec
  pub status : String
  pub created_at : Timestamp
  pub updated_at : Timestamp

pub record VerificationResult : Type 0 where
  pub status : String
  pub eligible : Bool
  pub summary : String
  pub checked_at : Timestamp
  pub tracked_event_chain_head : String
  pub event_count : ℕ  -- uint64

pub record EvidenceReport : Type 0 where
  pub run_id : String
  pub status : String
  pub verification : Option VerificationResult

-- An error that is no `APIError` has the code `internal`, as `respond` reports it.
pub record ApiError : Type 0 where
  pub code : String
  pub message : String

pub record IdempotencyRecord : Type 0 where
  pub run : Run
  pub request : String
  pub failure : Option ApiError

pub record PersistedRun : Type 0 where
  pub schema_version : String
  pub run : Run
  pub evidence : EvidenceReport
  pub idempotency : List (String × IdempotencyRecord)

-- The zero values that a Go map returns for a missing key.
abbrev pub zero_spec : RunSpec
zero_spec = record {
  schema_version = "";
  harness = "";
  suite = "";
  backend = "";
  parameters = [];
  verified = false;
}

abbrev pub zero_run : Run
zero_run = record { id = ""; spec = zero_spec; status = ""; created_at = none; updated_at = none }

abbrev pub zero_report : EvidenceReport
zero_report = record { run_id = ""; status = ""; verification = none }

abbrev pub zero_record : IdempotencyRecord
zero_record = record { run = zero_run; request = ""; failure = none }

abbrev pub or_else {ℓ} : {A : Type ℓ} → A → Option A → A
or_else other none = other
or_else other (some a) = a

-- `m[key]`
abbrev pub at_key {ℓ} : {V : Type ℓ} → V → String → List (String × V) → V
at_key other key m = or_else other (lookup key m)

-- The trusted log of a run, as the store uses it. A log without a method `Seal` is one whose `seal`
-- does nothing; one without `Sealed` is never sealed. What an append answers is the log's choice; an
-- acknowledged one adds the event, with its type, and a refused one adds nothing.
pub record EventLog (L : Type 0) : Type 0 where
  pub append : L → TrackedEvent → L × Result TrackedEvent
  pub snapshot : L → List TrackedEvent
  pub seal : L → L × Check
  pub is_sealed : L → Bool
  pub hash_head : L → Option String
  pub grows :
      (log : L) (event : TrackedEvent) {later : L} {stored : TrackedEvent}
      → append log event ≡ (later, ok stored)
      → (snapshot later ≡ snapshot log ++ stored ∷ []) × (stored.event_type ≡ event.event_type)
  pub keeps :
      (log : L) (event : TrackedEvent) {later : L} {message : String}
      → append log event ≡ (later, err message)
      → snapshot later ≡ snapshot log
  pub seal_keeps : (log : L) → snapshot (seal log).0 ≡ snapshot log
