-- ===== src/Store/Rules.antt =====
-- How a property of the final state passes through the actions of internal/api/server.go.
use harness_trajectory_bench.Prelude.{
  ◌+◌, String, ◌≡◌, refl, ◌≢◌, ◌⊎◌, inl, inr, Bool, true, false, Option, none, some, arith,
  if◌then◌else◌, ◌==◌, ◌!=◌, ==_iff, Bool-cases, Option-cases, Result, ok, err, lookup, nat_eq,
  string_eq, bool_eq, list_eq, pair_eq,
}
use harness_trajectory_bench.Store.Types.{Run, ApiError, IdempotencyRecord}
use harness_trajectory_bench.Store.State.{
  Writing, written, lost, unsynced, Store, Reply, done, failed, Action, raise, refuse, continue,
  ◌>>=◌, ◌>>◌,
}
use harness_trajectory_bench.Store.Persist.{
  write_state, settle_write, replace_state, latch, persist, must_persist, fail_with, latched,
  latched_by, persist_unless, latch_error, infrastructure,
}
use harness_trajectory_bench.Store.Append.{
  find_run, prior_run, unless_prior, match_request, answer_again, not_found,
}
use harness_trajectory_bench.Store.Create.{make_log, made_log}

module _ {L : Type 0} where
  -- What an append leaves as it was.
  pub record Framed (s t : Store L) : Type 0 where
    pub same_book : t.book ≡ s.book
    pub same_files : t.files ≡ s.files
    pub same_effects : t.world.effects ≡ s.world.effects

  abbrev pub next_write : Store L → Store L
  next_write s = record s { world = record s.world { writes = λ n. s.world.writes (n + 1) } }

  abbrev pub next_factory : Store L → Store L
  next_factory s = record s { world = record s.world { factory = λ n. s.world.factory (n + 1) } }

  abbrev pub latch_after : String → Store L → Store L
  latch_after e s = record s { files = record s.files { persist_error = some e } }

  pub bind-ends :
      {A B : Type 0} (m : Action L A) (f : A → Action L B) (s : Store L)
      (P : Reply B × Store L → Type 0)
      → ((a : A) (t : Store L) → m s ≡ (done a, t) → P (f a t))
      → ((e : ApiError) (t : Store L) → m s ≡ (failed e, t) → P (failed e, t))
      → P ((m >>= f) s)
  bind-ends {A = A} m f s P on_done on_failed = go (m s) refl
    where
      go : (r : Reply A × Store L) → m s ≡ r → P (continue f r)
      go (done a, t) e = on_done a t e
      go (failed error, t) e = on_failed error t e

  module _ {B : Type 0} (s : Store L) (P : Reply B × Store L → Type 0) where
    pub refuse-ends :
        (b : Bool) (error : ApiError) (k : Action L B)
        → P (failed error, s)
        → (b ≡ false → P (k s))
        → P ((refuse b error >> k) s)
    refuse-ends true error k stays next = stays
    refuse-ends false error k stays next = next refl

    pub latched-ends :
        (k : Action L B)
        → P (failed latch_error, s)
        → (s.files.persist_error ≡ none → P (k s))
        → P ((latched >> k) s)
    latched-ends k stays next = go s.files.persist_error refl
      where
        go :
            (o : Option String) → s.files.persist_error ≡ o → P (continue (λ x. k) (latched_by o s))
        go none e = next e
        go (some error) e = stays

    pub find-ends :
        (id : String) (f : Run → Action L B)
        → P (failed not_found, s)
        → ((r : Run) → lookup id s.book.runs ≡ some r → P (f r s))
        → P ((find_run id >>= f) s)
    find-ends id f stays next = elim (Option-cases (lookup id s.book.runs)) [
      | inl e ↦ rw e stays
      | inr (r, e) ↦ rw e (next r e)
    ]

    -- `persistLocked` does nothing without a root, fails once latched, and otherwise writes the
    -- state of the run, or sets the latch, or both.
    pub persist-ends :
        (operation id : String) (k : Action L B)
        → (s.files.root ≡ "" → P (k s))
        → ((e : String)
            → s.files.persist_error ≡ some e
            → P (failed (infrastructure operation e), s))
        → (s.files.root ≢ ""
            → s.files.persist_error ≡ none
            → s.world.writes 0 ≡ written
            → P (k (replace_state id (next_write s))))
        → ((e : String)
            → s.files.root ≢ ""
            → s.files.persist_error ≡ none
            → s.world.writes 0 ≡ lost e
            → P (failed (infrastructure operation e), latch_after e (next_write s)))
        → ((e : String)
            → s.files.root ≢ ""
            → s.files.persist_error ≡ none
            → s.world.writes 0 ≡ unsynced e
            → P (
              failed (infrastructure operation e),
              latch_after e (replace_state id (next_write s)),
            ))
        → P ((must_persist operation id >> k) s)
    unfolding must_persist persist write_state
    persist-ends operation id k volatile stuck saved on_lost on_unsynced =
        go (s.files.root == "") refl s.files.persist_error refl
      where
        ended : Reply (Option String) × Store L → Reply B × Store L
        ended r = continue {A = Unit} {B = B} (λ x. k) (continue (fail_with operation) r)

        named : (s.files.root == "") ≡ false → s.files.root ≢ ""
        named e same = ground (arith, (==_iff s.files.root "").1 same)

        settled :
            (s.files.root == "") ≡ false
            → s.files.persist_error ≡ none
            → (w : Writing) → s.world.writes 0 ≡ w
            → P (ended (latch (settle_write w id (next_write s))))
        settled e f written w = saved (named e) f w
        settled e f (lost m) w = on_lost m (named e) f w
        settled e f (unsynced m) w = on_unsynced m (named e) f w

        go :
            (b : Bool)
            → (s.files.root == "") ≡ b
            → (o : Option String) → s.files.persist_error ≡ o
            → P (ended (persist_unless b o id s))
        go true e o f = volatile ((==_iff s.files.root "").0 e)
        go false e (some error) f = stuck error f
        go false e none f = settled e f (s.world.writes 0) refl

    pub make_log-ends :
        (cleanup : Action L (Unit {0})) (f : Option L → Action L B)
        → P (f none s)
        → ((log : L) → P (f (some log) (next_factory s)))
        → ((e : ApiError) → P (failed e, (cleanup (next_factory s)).1))
        → P ((make_log cleanup >>= f) s)
    make_log-ends cleanup f without made cleaned = go s.world.has_factory
      where
        raised :
            (e : ApiError) (r : Reply (Unit {0}) × Store L)
            → ((error : ApiError) → P (failed error, r.1))
            → P (continue f (continue {A = Unit} (λ x. raise e) r))
        raised e (done a, t) h = h e
        raised e (failed error, t) h = h error

        answered : (r : Result (Option L)) → P ((made_log cleanup r >>= f) (next_factory s))
        answered (ok (some log)) = made log
        answered (ok none) = raised _ (cleanup (next_factory s)) cleaned
        answered (err m) = raised _ (cleanup (next_factory s)) cleaned

        go :
            (b : Bool)
            → P (
                continue f (
                  if b
                  then made_log cleanup (s.world.factory 0) (next_factory s)
                  else (done none, s)))
        go true = answered (s.world.factory 0)
        go false = without

  -- A request with a key that was used before changes nothing.
  pub prior-ends :
      (s : Store L) (P : Reply Run × Store L → Type 0) (keyed : Bool) (key request : String)
      (next : Action L Run)
      → ((r : Reply Run) → P (r, s))
      → ((keyed ≡ false) ⊎ (lookup key s.book.idempotency ≡ none) → P (next s))
      → P ((prior_run keyed key request >>= λ prior. unless_prior prior next) s)
  prior-ends s P false key request next stays new = new (inl refl)
  prior-ends s P true key request next stays new =
      elim (Option-cases (lookup key s.book.idempotency)) [
        | inl e ↦ rw e (new (inr e))
        | inr (r, e) ↦ rw e (again r)
      ]
    where
      answered :
          (r : IdempotencyRecord) → P ((answer_again r >>= λ prior. unless_prior prior next) s)
      answered r = elim (Option-cases r.failure) [
        | inl e ↦ rw e (stays (done r.run))
        | inr (error, e) ↦ rw e (stays (failed error))
      ]

      again :
          (r : IdempotencyRecord)
          → P ((match_request request (some r) >>= λ prior. unless_prior prior next) s)
      again r = elim (Bool-cases (r.request != request)) [
        | inl e ↦ rw e (stays _)
        | inr e ↦ rw e (answered r)
      ]
