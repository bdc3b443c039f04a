-- ===== src/Store/Catalog.antt =====
-- `validPersistedRunID`, `validatePersistedRun` and the loop of `OpenStore` in
-- internal/api/persistence.go.
use harness_trajectory_bench.Prelude.{
  ℕ, String, Bool, true, false, ◌&&◌, ◌||◌, not, Option, none, some, List, ◌∷◌, ltb, leb, ◌==◌,
  ◌!=◌, Result, ok, err, Check, ◌>>=◌, ◌>>◌, reject, lookup, insert, codes, len, ℤ, pos, negsuc,
  Timestamp, [], nat_eq, string_eq, bool_eq, list_eq, pair_eq,
}
use harness_trajectory_bench.Store.Types.{
  ApiError, VerificationResult, IdempotencyRecord, PersistedRun,
}
use harness_trajectory_bench.Store.State.{Book, Store, set_run, set_evidence, set_record}
use harness_trajectory_bench.Store.Create.{bad_spec}

abbrev pub is_run_id_code : ℕ → Bool
is_run_id_code c = (leb 97 c && leb c 122) || (leb 48 c && leb c 57) || (c == 45)

abbrev pub all_run_id_codes : List ℕ → Bool
all_run_id_codes [] = true
all_run_id_codes (c ∷ rest) = is_run_id_code c && all_run_id_codes rest

unfoldable pub valid_persisted_run_id : String → Bool
valid_persisted_run_id id = not ((id == "") || ltb 128 (len id)) && all_run_id_codes (codes id)

abbrev pub known_status : String → Bool
known_status status =
    (status == "created")
    || (status == "running")
    || (status == "stopping")
    || (status == "stopped")
    || (status == "completed")
    || (status == "failed")

abbrev pub before : ℤ → ℤ → Bool
before (pos a) (pos b) = ltb a b
before (pos a) (negsuc b) = false
before (negsuc a) (pos b) = true
before (negsuc a) (negsuc b) = ltb b a

-- `IsZero` of either, or `UpdatedAt.Before(CreatedAt)`
abbrev pub bad_times : Timestamp → Timestamp → Bool
bad_times none updated = true
bad_times (some created) none = true
bad_times (some created) (some updated) = before updated created

abbrev pub unnamed_outcome : Option VerificationResult → Bool
unnamed_outcome none = false
unnamed_outcome (some v) = v.status == ""

unfoldable pub validate_persisted_run : String → PersistedRun → Check
validate_persisted_run id state =
    reject (state.schema_version != "v1") "unsupported state schemaVersion"
    >> reject (state.run.id != id) "state run ID does not match directory"
    >> reject (bad_spec state.run.spec) "state has invalid run spec"
    >> reject (not (known_status state.run.status)) "state has unknown run status"
    >> reject (bad_times state.run.created_at state.run.updated_at)
        "state has invalid run timestamps"
    >> reject ((state.evidence.run_id != id) || (state.evidence.status == ""))
        "state has mismatched evidence report"
    >> reject (unnamed_outcome state.evidence.verification)
        "state has a verification result without status"

-- `*prior.failure != *record.Failure`, or only one of the two failed.
abbrev pub failure_conflict : Option ApiError → Option ApiError → Bool
failure_conflict none none = false
failure_conflict none (some e) = true
failure_conflict (some e) none = true
failure_conflict (some e) (some f) = (e.code != f.code) || (e.message != f.message)

abbrev pub conflicting : IdempotencyRecord → IdempotencyRecord → Bool
conflicting prior r =
    (prior.request != r.request)
    || (prior.run.id != r.run.id)
    || failure_conflict prior.failure r.failure

abbrev pub merge_record : String → IdempotencyRecord → Option IdempotencyRecord → Book → Result Book
merge_record key r none b = ok (set_record key r b)
merge_record key r (some prior) b = do
  reject (conflicting prior r) "idempotency key has conflicting records"
  ok b

-- The idempotency records of a run's state, in the order in which the map gives them.
unfoldable pub merge_records : String → List (String × IdempotencyRecord) → Book → Result Book
merge_records id [] b = ok b
merge_records id ((key, r) ∷ rest) b =
    (do
      reject (r.run.id != id) "idempotency key references another run"
      merge_record key r (lookup key b.idempotency) b)
    >>= merge_records id rest

-- What the file system, the JSON codec and the factory of logs answer for an entry below `runs`.
pub record CatalogEntry (L : Type 0) : Type 0 where
  pub name : String
  pub inspected : Bool
  pub is_directory : Bool
  pub has_state : Bool
  pub state_is_regular : Bool
  pub state : Result PersistedRun
  pub has_log : Bool
  pub log_is_regular : Bool
  pub log : Result (Option L)

module _ {L : Type 0} where
  abbrev pub restored_log : Result (Option L) → Result L
  restored_log (err m) = err m
  restored_log (ok none) = err "event log factory returned nil"
  restored_log (ok (some log)) = ok log

  abbrev pub restored : String → L → Book → Store L → Store L
  restored id log b s = record s {
    book = b;
    logs = record s.logs {
      events = insert id [] s.logs.events;
      event_logs = insert id log s.logs.event_logs;
    };
  }

  -- One turn of the loop of `OpenStore`.
  unfoldable pub load_entry : Bool → CatalogEntry L → Store L → Result (Store L)
  load_entry has_factory entry s = do
    reject (not entry.inspected) "inspect run catalog entry"
    reject (not entry.is_directory) "run catalog entry is not a real directory"
    reject (not (valid_persisted_run_id entry.name)) "invalid persisted run ID"
    reject (not entry.has_state) "run is missing state.json"
    reject (not entry.state_is_regular) "run state.json is not a regular file"
    state ← entry.state
    validate_persisted_run entry.name state
    reject (not entry.has_log) "run is missing its trajectory log"
    reject (not entry.log_is_regular) "run trajectory log is not a regular file"
    reject (not has_factory) "run requires an event log factory to restore"
    log ← restored_log entry.log
    b ←
        merge_records entry.name state.idempotency
          (set_evidence entry.name state.evidence (set_run entry.name state.run s.book))
    ok (restored entry.name log b s)

  unfoldable pub load_entries : Bool → List (CatalogEntry L) → Store L → Result (Store L)
  load_entries has_factory [] s = ok s
  load_entries has_factory (entry ∷ rest) s = do
    t ← load_entry has_factory entry s
    load_entries has_factory rest t
