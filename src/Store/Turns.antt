-- ===== src/Store/Turns.antt =====
-- A change of the status of a run in internal/api/server.go, and its persistence.
use harness_trajectory_bench.Prelude.{
  ◌+◌, String, ◌≡◌, refl, ap, ◌⊎◌, inl, inr, Bool, true, false, some, ==_refl, lookup,
  lookup-insert_self, ℤ, nat_eq, string_eq, bool_eq, list_eq, pair_eq,
}
use harness_trajectory_bench.Store.Types.{Run, IdempotencyRecord, or_else, zero_run}
use harness_trajectory_bench.Store.State.{
  Book, Store, Action, now, modify_book, remember, set_run, set_evidence, ◌>>=◌, ◌>>◌,
}
use harness_trajectory_bench.Store.Persist.{replace_state, must_persist}
use harness_trajectory_bench.Store.Append.{Deps}
use harness_trajectory_bench.Store.Mutate.{with_status}
use harness_trajectory_bench.Store.Create.{not_collected}
use harness_trajectory_bench.Store.Rules.{next_write}
use harness_trajectory_bench.Store.Lifecycle.{edge}
use harness_trajectory_bench.Store.Steps.{
  Noted, Turning, Registered, Trace, next, moved, last_written, with_book,
}
use harness_trajectory_bench.Store.Traces.{Ends, persist-Ends, wait-Trace}

pub remember-runs :
    (keyed : Bool) (key : String) (r : IdempotencyRecord) (b : Book)
    → (remember keyed key r b).runs ≡ b.runs
remember-runs true key r b = refl
remember-runs false key r b = refl

remember-evidence :
    (keyed : Bool) (key : String) (r : IdempotencyRecord) (b : Book)
    → (remember keyed key r b).evidence ≡ b.evidence
remember-evidence true key r b = refl
remember-evidence false key r b = refl

pub remember-Noted :
    (keyed : Bool) (key : String) (r : IdempotencyRecord) (b : Book)
    → Noted r.run b (remember keyed key r b)
remember-Noted true key r b = inr (key, r, refl, refl)
remember-Noted false key r b = inl refl

pub remember-Turning :
    (keyed : Bool) (key : String) (r : IdempotencyRecord) (id : String) (b : Book)
    → Turning id r.run b (remember keyed key r (set_run id r.run b))
remember-Turning keyed key r id b = record {
  runs = remember-runs keyed key r (set_run id r.run b);
  evidence = remember-evidence keyed key r (set_run id r.run b);
  noted = remember-Noted keyed key r (set_run id r.run b);
}

pub remember-Registered :
    (keyed : Bool) (key : String) (r : IdempotencyRecord) (b : Book)
    → Registered r.run b (
        remember keyed key r
          (set_evidence r.run.id (not_collected r.run.id) (set_run r.run.id r.run b)))
remember-Registered keyed key r b = record {
  runs = remember-runs keyed key r _;
  evidence = remember-evidence keyed key r _;
  noted = remember-Noted keyed key r _;
}

module _ {L : Type 0} where
  -- The status of a run is on disk, if the store has one.
  abbrev pub Recorded : String → String → Store L → Type 0
  Recorded id status t = (t.files.root ≡ "") ⊎ (last_written id t.world.effects ≡ some status)

  -- A run is in the store, and the disk has its status.
  pub record Settled (id : String) (r : Run) (t : Store L) : Type 0 where
    pub held : lookup id t.book.runs ≡ some r
    pub recorded : Recorded id r.status t

  pub replace_state-Settled :
      (id : String) (r : Run) (s : Store L)
      → lookup id s.book.runs ≡ some r
      → Settled id r (replace_state id (next_write s))
  unfolding last_written
  replace_state-Settled id r s found = record {
    held = found;
    recorded = inr (rw (==_refl id) (ap (λ o. some (or_else zero_run o).status) found));
  }

  module _ (deps : Deps L) (first : Store L) where
    pub turn-Ends :
        {B : Type 0} (s : Store L) (Q : B → Store L → Type 0) (trace : Trace deps first s)
        (id : String) (r : Run) (status operation : String) (change : ℤ → Book → Book)
        (k : ℤ → Action L B)
        → lookup id s.book.runs ≡ some r
        → edge r.status status ≡ true
        → ((time : ℤ) (b : Book) → Turning id (with_status r status time) b (change time b))
        → ((time : ℤ) (t : Store L)
            → Trace deps first t
            → t.files.root ≡ s.files.root
            → Settled id (with_status r status time) t
            → Ends deps first Q (k time t))
        → Ends deps first Q
            ((now >>= λ time. modify_book (change time) >> (must_persist operation id >> k time)) s)
    turn-Ends s Q trace id r status operation change k found turn changed ends =
        persist-Ends deps first turned Q reached operation id (k time)
          (λ volatile.
            ends time turned reached refl (record { held = kept; recorded = inl volatile }))
          (λ saved.
            ends time (replace_state id (next_write turned)) saved refl
              (replace_state-Settled id (with_status r status time) turned kept))
      where
        time : ℤ
        time = s.world.clock 0

        ticked : Store L
        ticked = record s { world = record s.world { clock = λ n. s.world.clock (n + 1) } }

        turned : Store L
        turned = with_book deps (change time s.book) ticked

        kept : lookup id turned.book.runs ≡ some (with_status r status time)
        kept =
            rw (changed time s.book).runs
              (lookup-insert_self id (with_status r status time) s.book.runs)

        reached : Trace deps first turned
        reached = next (wait-Trace deps first trace refl refl refl (λ asked. refl)) (
            moved id r (with_status r status time) (change time s.book) found
              (record { same_id = refl; same_spec = refl; same_created = refl; turn = turn })
              (changed time s.book))
