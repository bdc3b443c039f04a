-- ===== src/Store/Steps.antt =====
-- The changes that the methods of internal/api/server.go are made of, as a step relation.
use harness_trajectory_bench.Prelude.{
  ◌+◌, String, ◌≡◌, ◌≢◌, ◌⊎◌, true, Option, none, some, List, ◌∷◌, if◌then◌else◌, ◌==◌, lookup,
  insert, [], nat_eq, string_eq, bool_eq, list_eq, pair_eq,
}
use harness_trajectory_bench.Events.Types.{TrackedEvent}
use harness_trajectory_bench.Store.Types.{
  Run, EvidenceReport, IdempotencyRecord, VerificationResult, zero_report, at_key,
}
use harness_trajectory_bench.Store.State.{
  written, lost, unsynced, Book, Effect, wrote, prepared, started, stopped, aborted, Store, done,
}
use harness_trajectory_bench.Store.Persist.{replace_state}
use harness_trajectory_bench.Store.Append.{Deps, events_of}
use harness_trajectory_bench.Store.Create.{open_log_of}
use harness_trajectory_bench.Store.Rules.{Framed, next_write, latch_after}
use harness_trajectory_bench.Store.Appends.{Extended}
use harness_trajectory_bench.Store.Lifecycle.{edge}

-- The status of a run that was written last.
unfoldable pub last_written : String → List Effect → Option String
last_written id [] = none
last_written id (wrote other status ∷ rest) =
    if other == id then some status else last_written id rest
last_written id (prepared other ∷ rest) = last_written id rest
last_written id (started other ∷ rest) = last_written id rest
last_written id (stopped other reason ∷ rest) = last_written id rest
last_written id (aborted other ∷ rest) = last_written id rest

-- What must be on disk when the driver is asked.
abbrev pub Ready : Effect → List Effect → Type 0
Ready (prepared id) before = last_written id before ≡ some "created"
Ready (started id) before = last_written id before ≡ some "running"
Ready (stopped id reason) before = last_written id before ≡ some "stopping"
Ready (wrote id status) before = Unit
Ready (aborted id) before = Unit

-- A run whose status moved along an edge.
pub record Turned (r t : Run) : Type 0 where
  pub same_id : t.id ≡ r.id
  pub same_spec : t.spec ≡ r.spec
  pub same_created : t.created_at ≡ r.created_at
  pub turn : edge r.status t.status ≡ true

-- The answers to repeated requests: as they were, or with the answer for one key set, with the run.
abbrev pub Noted : Run → Book → Book → Type 0
Noted r before after =
    (after.idempotency ≡ before.idempotency)
    ⊎ ((key : String) × (answer : IdempotencyRecord) × (answer.run ≡ r)
        × (after.idempotency ≡ insert key answer before.idempotency))

-- A run is the only one that changes, and with it the answer for one key at most.
pub record Turning (id : String) (t : Run) (before after : Book) : Type 0 where
  pub runs : after.runs ≡ insert id t before.runs
  pub evidence : after.evidence ≡ before.evidence
  pub noted : Noted t before after

-- A run is new, and nothing is known of its evidence.
pub record Registered (r : Run) (before after : Book) : Type 0 where
  pub runs : after.runs ≡ insert r.id r before.runs
  pub evidence :
      after.evidence
      ≡ insert r.id
          (record { run_id = r.id; status = "not_collected"; verification = none })
          before.evidence
  pub noted : Noted r before after

-- The report of one run has a verification. It says `verified` only of an eligible, verified one.
pub record Reported (id : String) (r : Run) (before after : Book) : Type 0 where
  pub found : lookup id before.runs ≡ some r
  pub report : EvidenceReport
  pub verification : VerificationResult
  pub recorded : report.verification ≡ some verification
  pub same_run : report.run_id ≡ (at_key zero_report id before.evidence).run_id
  pub honest :
      report.status ≡ "verified"
      → (verification.status ≡ "verified") × (verification.eligible ≡ true)
  pub runs : after.runs ≡ before.runs
  pub evidence : after.evidence ≡ insert id report before.evidence
  pub noted : Noted r before after

module _ {L : Type 0} (deps : Deps L) where
  abbrev pub with_book : Book → Store L → Store L
  with_book b s = record s { book = b }

  abbrev pub answered : Effect → Store L → Store L
  answered effect s = record s {
    world = record s.world {
      driver = λ n. s.world.driver (n + 1);
      effects = effect ∷ s.world.effects;
    };
  }

  pub data Step (s : Store L) : Store L → Type 0 where
    waited :
        {t : Store L}
        → Framed s t
        → ((asked : String) → events_of deps asked t ≡ events_of deps asked s)
        → Step s t
    appended :
        {t : Store L} (id : String) (event e : TrackedEvent)
        → Framed s t
        → Extended deps id event (done e) s t
        → Step s t
    opened :
        (id : String) (log : Option L)
        → lookup id s.book.runs ≡ none
        → Step s (open_log_of id log s).1
    registered :
        (r : Run) (b : Book)
        → lookup r.id s.book.runs ≡ none
        → r.status ≡ "created"
        → Registered r s.book b
        → Step s (with_book b s)
    moved :
        (id : String) (r t : Run) (b : Book)
        → lookup id s.book.runs ≡ some r
        → Turned r t
        → Turning id t s.book b
        → Step s (with_book b s)
    reported : (id : String) (r : Run) (b : Book) → Reported id r s.book b → Step s (with_book b s)
    saved :
        (id : String)
        → s.files.root ≢ ""
        → s.files.persist_error ≡ none
        → s.world.writes 0 ≡ written
        → Step s (replace_state id (next_write s))
    broke :
        (message : String)
        → s.files.root ≢ ""
        → s.files.persist_error ≡ none
        → s.world.writes 0 ≡ lost message
        → Step s (latch_after message (next_write s))
    torn :
        (id message : String)
        → s.files.root ≢ ""
        → s.files.persist_error ≡ none
        → s.world.writes 0 ≡ unsynced message
        → Step s (latch_after message (replace_state id (next_write s)))
    called :
        (effect : Effect)
        → (s.files.root ≡ "") ⊎ Ready effect s.world.effects
        → Step s (answered effect s)
    cleaned :
        (id : String)
        → Step s (record s { world = record s.world { effects = aborted id ∷ s.world.effects } })

  pub data Trace (s : Store L) : Store L → Type 0 where
    here : Trace s s
    next : {t u : Store L} → Trace s t → Step t u → Trace s u

  pub Trace-trans : {s t u : Store L} → Trace s t → Trace t u → Trace s u
  Trace-trans v here = v
  Trace-trans v (next w step) = next (Trace-trans v w) step
