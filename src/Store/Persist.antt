-- ===== src/Store/Persist.antt =====
-- `writeState`, `persistLocked` and `latchedLocked` of internal/api/persistence.go.
use Prim.Native.String
use harness_trajectory_bench.Prelude.{
  ◌+◌, String, Bool, true, false, Option, none, some, ◌∷◌, ◌==◌, keep_if, insert, nat_eq, string_eq,
  bool_eq, list_eq, pair_eq,
}
use harness_trajectory_bench.Store.Types.{
  ApiError, IdempotencyRecord, PersistedRun, zero_run, zero_report, at_key,
}
use harness_trajectory_bench.Store.State.{
  Book, Writing, written, lost, unsynced, wrote, Store, Reply, done, Action, pure, raise, ◌>>=◌,
}

abbrev pub owned : String → String × IdempotencyRecord → Bool
owned id (key, r) = r.run.id == id

-- The content of a run's `state.json`.
abbrev pub persisted : String → Book → PersistedRun
persisted id b = record {
  schema_version = "v1";
  run = at_key zero_run id b.runs;
  evidence = at_key zero_report id b.evidence;
  idempotency = keep_if (owned id) b.idempotency;
}

abbrev pub with_context : String → String → String
with_context operation message = String.◌++◌ operation (String.◌++◌ ": " message)

abbrev pub infrastructure : String → String → ApiError
infrastructure operation message = record {
  code = "infrastructure";
  message = with_context operation message;
}

abbrev pub latch_error : ApiError
latch_error = record {
  code = "infrastructure";
  message = "control-plane persistence latched after an earlier failure; restart required";
}

module _ {L : Type 0} where
  abbrev pub replace_state : String → Store L → Store L
  replace_state id s = record s {
    files = record s.files { disk = insert id (persisted id s.book) s.files.disk };
    world = record s.world {
      effects = wrote id (at_key zero_run id s.book.runs).status ∷ s.world.effects;
    };
  }

  abbrev pub settle_write : Writing → String → Store L → Option String × Store L
  settle_write written id s = (none, replace_state id s)
  settle_write (lost e) id s = (some e, s)
  settle_write (unsynced e) id s = (some e, replace_state id s)

  -- The error of the write, if any.
  unfoldable pub write_state : String → Store L → Option String × Store L
  write_state id s =
      settle_write (s.world.writes 0) id
        (record s { world = record s.world { writes = λ n. s.world.writes (n + 1) } })

  abbrev pub latch : Option String × Store L → Reply (Option String) × Store L
  latch (none, s) = (done none, s)
  latch (some e, s) =
      (done (some e), record s { files = record s.files { persist_error = some e } })

  abbrev pub persist_unless : Bool → Option String → String → Action L (Option String)
  persist_unless true error id s = (done none, s)
  persist_unless false (some e) id s = (done (some e), s)
  persist_unless false none id s = latch (write_state id s)

  -- `persistLocked`
  unfoldable pub persist : String → Action L (Option String)
  persist id s = persist_unless (s.files.root == "") s.files.persist_error id s

  abbrev pub fail_with : String → Option String → Action L (Unit {0})
  fail_with operation none = pure tt
  fail_with operation (some e) = raise (infrastructure operation e)

  -- `if err := s.persistLocked(id); err != nil { return … }`
  unfoldable pub must_persist : String → String → Action L (Unit {0})
  must_persist operation id = do e ← persist id; fail_with operation e

  abbrev pub latched_by : Option String → Action L (Unit {0})
  latched_by none = pure tt
  latched_by (some e) = raise latch_error

  -- `latchedLocked`
  abbrev pub latched : Action L (Unit {0})
  latched s = latched_by s.files.persist_error s
