-- ===== src/Store/Recovered.antt =====
-- What `recoverPersistedRuns` of internal/api/persistence.go leaves behind.
use harness_trajectory_bench.Prelude.{
  ◌+◌, String, ◌≡◌, refl, sym, ap, ◌∙◌, subst, ◌⊎◌, inl, inr, Bool, true, false, Option, none, some,
  List, ◌∷◌, arith, ◌==◌, ==_iff, Bool-cases, ok, err, Check, contains, lookup, lookup-insert,
  lookup-insert_self, ℤ, [], nat_eq, string_eq, bool_eq, list_eq, pair_eq,
}
use harness_trajectory_bench.Store.Types.{Run, at_key, or_else, zero_run, zero_report}
use harness_trajectory_bench.Store.State.{
  Book, Writing, written, lost, unsynced, Store, Reply, done, failed, Action, pure, continue, ◌>>=◌,
  ◌>>◌,
}
use harness_trajectory_bench.Store.Persist.{
  persist, persist_unless, write_state, settle_write, latch,
}
use harness_trajectory_bench.Store.Append.{Deps, put_log}
use harness_trajectory_bench.Store.Publish.{is_terminal, is_unset}
use harness_trajectory_bench.Store.Rules.{bind-ends, next_write}
use harness_trajectory_bench.Store.Appends.{append-ends}
use harness_trajectory_bench.Store.Recovery.{
  is_settled, finish_once, mark_interrupted, sealed_recovered, seal_recovered, fail_plainly,
  recover_interrupted, recover_unless, recover_run, recover_all, keys, recover_persisted_runs,
  has_finish, logged_events,
}

-- A run that ended, and whose evidence report has a verification.
pub record Finalized (id : String) (b : Book) : Type 0 where
  pub ended : is_terminal (at_key zero_run id b.runs).status ≡ true
  pub verified : is_unset (at_key zero_report id b.evidence).verification ≡ false

mark-Finalized : (id : String) (t : ℤ) (b : Book) → Finalized id (mark_interrupted id t b)
mark-Finalized id t b = record {
  ended = ap (λ o. is_terminal (or_else zero_run o).status) (lookup-insert_self id _ b.runs) ∙ refl;
  verified =
      ap (λ o. is_unset (or_else zero_report o).verification) (lookup-insert_self id _ b.evidence);
}

marked-Finalized :
    (asked id : String) (t : ℤ) (b : Book)
    → Finalized asked b
    → Finalized asked (mark_interrupted id t b)
marked-Finalized asked id t b f = elim (Bool-cases (id == asked)) [
  | inl e ↦
      subst (λ k. Finalized k (mark_interrupted id t b)) ((==_iff id asked).0 e)
        (mark-Finalized id t b)
  | inr e ↦ record {
    ended = simp (lookup-insert, e, f.ended);
    verified = simp (lookup-insert, e, f.verified);
  }
]

module _ {L : Type 0} (deps : Deps L) where
  abbrev EndsWith : Book → Reply (Unit {0}) × Store L → Type 0
  EndsWith b (done a, s) = s.book ≡ b
  EndsWith b (failed e, s) = Unit

  persist-EndsWith : (id : String) (s : Store L) → EndsWith s.book ((persist id >>= fail_plainly) s)
  unfolding persist write_state
  persist-EndsWith id s = go (s.files.root == "") s.files.persist_error (s.world.writes 0)
    where
      settled :
          (w : Writing)
          → EndsWith s.book (continue fail_plainly (latch (settle_write w id (next_write s))))
      settled written = refl
      settled (lost m) = tt
      settled (unsynced m) = tt

      go :
          (b : Bool) (o : Option String)
          → Writing
          → EndsWith s.book (continue fail_plainly (persist_unless b o id s))
      go true o w = refl
      go false (some e) w = tt
      go false none w = settled (s.world.writes 0)

  seal-EndsWith :
      (id : String) (o : Option L) (s : Store L)
      → EndsWith s.book ((seal_recovered deps id o >> (persist id >>= fail_plainly)) s)
  seal-EndsWith id none s = persist-EndsWith id s
  seal-EndsWith id (some log) s = go (deps.log.seal log)
    where
      go :
          (x : L × Check)
          → EndsWith s.book
              (continue (λ a. persist id >>= fail_plainly) (sealed_recovered deps id s x))
      go (later, ok sealed) = persist-EndsWith id (put_log deps id later s)
      go (later, err m) = tt

  finish_once-book :
      (id : String) (b : Bool) (s : Store L) → (finish_once deps id b s).1.book ≡ s.book
  finish_once-book id true s = refl
  finish_once-book id false s =
      append-ends deps s (λ x. x.1.book ≡ s.book) id _ (λ stored. pure tt)
        (λ error t framed kept. framed.same_book) (λ e t framed longer. framed.same_book)

  recover_interrupted-EndsWith :
      (t : ℤ) (id : String) (s : Store L)
      → EndsWith (mark_interrupted id t s.book) (recover_interrupted deps t id s)
  unfolding recover_interrupted
  recover_interrupted-EndsWith t id s =
      go (has_finish (logged_events deps (lookup id s.logs.event_logs)))
    where
      rest : Action L (Unit {0})
      rest u =
          (seal_recovered deps id (lookup id u.logs.event_logs) >> (persist id >>= fail_plainly))
            (record u { book = mark_interrupted id t u.book })

      resting : (u : Store L) → u.book ≡ s.book → EndsWith (mark_interrupted id t s.book) (rest u)
      resting u same =
          subst (λ b. EndsWith (mark_interrupted id t b) (rest u)) same
            (seal-EndsWith id (lookup id u.logs.event_logs)
              (record u { book = mark_interrupted id t u.book }))

      go : (b : Bool) → EndsWith (mark_interrupted id t s.book) ((finish_once deps id b >> rest) s)
      go b =
          bind-ends (finish_once deps id b) (λ a. rest) s (EndsWith (mark_interrupted id t s.book))
            (λ a u e. resting u (sym (ap (λ x. x.1.book) e) ∙ finish_once-book id b s))
            (λ e u h. tt)

  -- After the turn of a run, it is finalized; a run that was finalized before stays so.
  abbrev Turn : String → Book → Reply (Unit {0}) × Store L → Type 0
  Turn id b (done a, s) =
      Finalized id s.book × ((asked : String) → Finalized asked b → Finalized asked s.book)
  Turn id b (failed e, s) = Unit

  recover_run-Turn : (t : ℤ) (id : String) (s : Store L) → Turn id s.book (recover_run deps t id s)
  unfolding recover_run
  recover_run-Turn t id s = go (is_settled deps id s) refl
    where
      marked :
          (x : Reply (Unit {0}) × Store L)
          → EndsWith (mark_interrupted id t s.book) x
          → Turn id s.book x
      marked (done a, u) e =
          rw e (mark-Finalized id t s.book, λ asked f. marked-Finalized asked id t s.book f)
      marked (failed e, u) h = tt

      go : (b : Bool) → is_settled deps id s ≡ b → Turn id s.book (recover_unless deps b t id s)
      go true e = (record { ended = ground arith; verified = ground arith }, λ asked f. f)
      go false e = marked (recover_interrupted deps t id s) (recover_interrupted-EndsWith t id s)

  abbrev Turns : List String → Book → Reply (Unit {0}) × Store L → Type 0
  Turns ids b (done a, s) =
      ((asked : String) → (contains ids asked ≡ true) ⊎ Finalized asked b → Finalized asked s.book)
  Turns ids b (failed e, s) = Unit

  recover_all-Turns :
      (t : ℤ) (ids : List String) (s : Store L) → Turns ids s.book (recover_all deps t ids s)
  unfolding recover_all contains
  recover_all-Turns t [] s = λ asked h. elim h [ inl e ↦ absurd (ground (arith, e)) | inr f ↦ f ]
  recover_all-Turns t (id ∷ rest) s =
      bind-ends (recover_run deps t id) (λ a. recover_all deps t rest) s (Turns (id ∷ rest) s.book)
        (λ a u e.
          after u (subst (Turn id s.book) e (recover_run-Turn t id s)) (recover_all deps t rest u)
            (recover_all-Turns t rest u))
        (λ e u h. tt)
    where
      after :
          (u : Store L)
          → Turn id s.book (done tt, u)
          → (x : Reply (Unit {0}) × Store L) → Turns rest u.book x
          → Turns (id ∷ rest) s.book x
      after u turn (failed e, v) h = tt
      after u turn (done a, v) h = λ asked due. h asked (elim due [
        | inr f ↦ inr (turn.1 asked f)
        | inl listed ↦ elim (Bool-cases (id == asked)) [
          | inl same ↦ inr (subst (λ k. Finalized k u.book) ((==_iff id asked).0 same) turn.0)
          | inr other ↦ inl (ground (arith, listed, other))
        ]
      ])

  contains-keys :
      (id : String) (r : Run) (runs : List (String × Run))
      → lookup id runs ≡ some r
      → contains (keys runs) id ≡ true
  unfolding contains lookup
  contains-keys id r [] found = absurd (ground (arith, found))
  contains-keys id r ((other, value) ∷ rest) found = elim (Bool-cases (other == id)) [
    | inl e ↦ rw e refl
    | inr e ↦ rw e (contains-keys id r rest (ground (arith, found, e)))
  ]

  -- If the recovery after a restart succeeds, then every run that was in the store has a
  -- terminal status and an evidence report with a verification.
  pub recover-Finalized :
      (s t : Store L) (id : String) (r : Run)
      → recover_persisted_runs deps s ≡ (done tt, t)
      → lookup id s.book.runs ≡ some r
      → Finalized id t.book
  unfolding recover_persisted_runs
  recover-Finalized s t id r h found =
      subst (Turns (keys s.book.runs) s.book) h
        (recover_all-Turns (s.world.clock 0) (keys s.book.runs)
          (record s { world = record s.world { clock = λ n. s.world.clock (n + 1) } }))
        id (inl (contains-keys id r s.book.runs found))
