-- ===== src/Store/State.antt =====
-- The state of the store of internal/api/server.go, and its actions: state and errors.
use harness_trajectory_bench.Prelude.{
  ℕ, ◌+◌, String, Bool, true, false, Option, none, some, List, ◌∷◌, if◌then◌else◌, Result, insert,
  ℤ, nat_eq, string_eq, bool_eq, list_eq, pair_eq,
}
use harness_trajectory_bench.Events.Types.{TrackedEvent}
use harness_trajectory_bench.Store.Types.{
  Run, EvidenceReport, ApiError, IdempotencyRecord, PersistedRun,
}

-- The maps of runs, evidence reports and idempotency records.
pub record Book : Type 0 where
  pub runs : List (String × Run)
  pub evidence : List (String × EvidenceReport)
  pub idempotency : List (String × IdempotencyRecord)

-- The maps of events: in memory, and behind a trusted log.
pub record Logs (L : Type 0) : Type 0 where
  pub events : List (String × List TrackedEvent)
  pub event_logs : List (String × L)

-- The persistence root, its error latch, and the `state.json` of each run below the root.
pub record Files : Type 0 where
  pub root : String
  pub persist_error : Option String
  pub disk : List (String × PersistedRun)

-- How `writeState` may end: the file is replaced; it is not; or it is, and an error follows.
pub data Writing : Type 0 where
  written : Writing
  lost : String → Writing
  unsynced : String → Writing

-- What the store does to the world outside.
pub data Effect : Type 0 where
  wrote : String → String → Effect  -- the state of a run, with its status, was replaced on disk
  prepared : String → Effect  -- `Prepare` was called for a run
  started : String → Effect
  stopped : String → String → Effect
  aborted : String → Effect

-- The answers to come of the clock, the random source, the disk, the driver and the factory of logs,
-- and the effects so far, the latest first. A driver answers with its error, if any. A factory
-- answers with an error, with nil, or with a log.
pub record World (L : Type 0) : Type 0 where
  pub clock : ℕ → ℤ  -- nanoseconds
  pub ids : ℕ → Option String
  pub writes : ℕ → Writing
  pub has_driver : Bool
  pub can_abort : Bool  -- the driver has the method `Abort`
  pub driver : ℕ → Option String
  pub has_factory : Bool
  pub factory : ℕ → Result (Option L)
  pub effects : List Effect

pub record Store (L : Type 0) : Type 0 where
  pub book : Book
  pub logs : Logs L
  pub files : Files
  pub world : World L

pub data Reply (A : Type 0) : Type 0 where
  done : A → Reply A
  failed : ApiError → Reply A

-- A method, under the store's mutex: what was written stays written behind an error.
abbrev pub Action : Type 0 → Type 0 → Type 0
Action L A = Store L → Reply A × Store L

module _ {L : Type 0} where
  abbrev pub pure : {A : Type 0} → A → Action L A
  pure a s = (done a, s)

  abbrev pub raise : {A : Type 0} → ApiError → Action L A
  raise e s = (failed e, s)

  abbrev pub continue : {A B : Type 0} → (A → Action L B) → Reply A × Store L → Reply B × Store L
  continue f (done a, s) = f a s
  continue f (failed e, s) = (failed e, s)

  infixl 5 ◌>>=◌ ◌>>◌
  abbrev pub ◌>>=◌ : {A B : Type 0} → Action L A → (A → Action L B) → Action L B
  ◌>>=◌ m f s = continue f (m s)

  abbrev pub ◌>>◌ : {B : Type 0} → Action L (Unit {0}) → Action L B → Action L B
  m >> k = m >>= λ _. k

  abbrev pub refuse : Bool → ApiError → Action L (Unit {0})
  refuse true e = raise e
  refuse false e = pure tt

  abbrev pub gets : {A : Type 0} → (Store L → A) → Action L A
  gets f s = (done (f s), s)

  abbrev pub modify_book : (Book → Book) → Action L (Unit {0})
  modify_book f s = (done tt, record s { book = f s.book })

  abbrev pub modify_world : (World L → World L) → Action L (Unit {0})
  modify_world f s = (done tt, record s { world = f s.world })

  abbrev pub perform : Effect → Action L (Unit {0})
  perform effect = modify_world (λ w. record w { effects = effect ∷ w.effects })

  -- `time.Now()`
  abbrev pub now : Action L ℤ
  now s = (
    done (s.world.clock 0),
    record s { world = record s.world { clock = λ n. s.world.clock (n + 1) } },
  )

  abbrev pub drew : Option String → Store L → Reply String × Store L
  drew none s = (
    failed (record { code = "internal"; message = "generate run ID" }),
    record s { world = record s.world { ids = λ n. s.world.ids (n + 1) } },
  )
  drew (some id) s =
      (done id, record s { world = record s.world { ids = λ n. s.world.ids (n + 1) } })

  -- `newRunID`
  abbrev pub new_run_id : Action L String
  new_run_id s = drew (s.world.ids 0) s

  -- A call of the driver: its error, if any.
  abbrev pub call_driver : Effect → Action L (Option String)
  call_driver effect s = (
    done (s.world.driver 0),
    record s {
      world = record s.world {
        driver = λ n. s.world.driver (n + 1);
        effects = effect ∷ s.world.effects;
      };
    },
  )

abbrev pub set_run : String → Run → Book → Book
set_run id run b = record b { runs = insert id run b.runs }

abbrev pub set_evidence : String → EvidenceReport → Book → Book
set_evidence id report b = record b { evidence = insert id report b.evidence }

abbrev pub set_record : String → IdempotencyRecord → Book → Book
set_record key r b = record b { idempotency = insert key r b.idempotency }

-- `if m.IdempotencyKey != "" { s.idempotency[key] = … }`
abbrev pub remember : Bool → String → IdempotencyRecord → Book → Book
remember keyed key r b = if keyed then set_record key r b else b
