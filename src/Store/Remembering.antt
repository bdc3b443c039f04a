-- ===== src/Store/Remembering.antt =====
-- How `mutateContext` of internal/api/server.go keeps its answer to a request with a key.
use harness_trajectory_bench.Prelude.{
  ◌+◌, String, ◌≡◌, ap, ◌∙◌, subst, Bool, true, false, ◌&&◌, not, Option, none, some, ◌∷◌,
  if◌then◌else◌, ◌==◌, ◌!=◌, lookup, lookup-insert_self, nat_eq, string_eq, bool_eq, list_eq,
  pair_eq,
}
use harness_trajectory_bench.Store.Types.{LifecycleMutation, Run, ApiError, IdempotencyRecord}
use harness_trajectory_bench.Store.State.{
  Book, Effect, started, stopped, Store, Reply, done, failed, pure, raise, call_driver, remember,
  set_run, ◌>>=◌, ◌>>◌,
}
use harness_trajectory_bench.Store.Persist.{must_persist, replace_state}
use harness_trajectory_bench.Store.Append.{Deps}
use harness_trajectory_bench.Store.Mutate.{
  with_status, record_run, finish_mutation, finish_status, fail_start, dispatched, start_durable,
  refuse_start, start_volatile, fail_stop, stop_answered, stop_driven, dispatch, transition,
  mutation_key,
}
use harness_trajectory_bench.Store.Rules.{bind-ends, next_write, refuse-ends, persist-ends}
use harness_trajectory_bench.Store.Appends.{append-ends}

module _ {L : Type 0} (deps : Deps L) (fingerprint : LifecycleMutation → String) (id : String)
    (m : LifecycleMutation) (keyed : (m.idempotency_key != "") ≡ true) where
  abbrev pub answer_of : Run → IdempotencyRecord
  answer_of r = record { run = r; request = fingerprint m; failure = none }

  -- The answer of the request is kept.
  pub record Remembered (r : Run) (t : Store L) : Type 0 where
    pub known : (u : Run) × (lookup id t.book.runs ≡ some u)
    pub fine : t.files.persist_error ≡ none
    pub answer : lookup (mutation_key id m) t.book.idempotency ≡ some (answer_of r)

  abbrev pub After : Reply Run × Store L → Type 0
  After (done r, t) = Remembered r t
  After (failed e, t) = Unit

  abbrev recorded_book : Run → Option ApiError → Book → Book
  recorded_book r failure b =
      remember (m.idempotency_key != "") (mutation_key id m)
        (record { run = r; request = fingerprint m; failure = failure }) (set_run id r b)

  abbrev recorded : Run → Store L → Store L
  recorded r s = record s {
    book = recorded_book r none s.book;
    world = record s.world { clock = λ n. s.world.clock (n + 1) };
  }

  recorded-Remembered :
      (r : Run) (s : Store L) → s.files.persist_error ≡ none → Remembered r (recorded r s)
  recorded-Remembered r s fine = rw keyed (record {
    known = (r, lookup-insert_self id r s.book.runs);
    fine = fine;
    answer = lookup-insert_self (mutation_key id m) (answer_of r) s.book.idempotency;
  })

  -- An action that can only fail.
  failing-After :
      (s : Store L) (operation : String) (e : ApiError)
      → After ((must_persist operation id >> raise e) s)
  failing-After s operation e =
      persist-ends s After operation id (raise e) (λ volatile. tt) (λ x stuck. tt)
        (λ named fine w. tt) (λ x named fine w. tt) (λ x named fine w. tt)

  finish_mutation-After :
      (r : Run) (s : Store L)
      → s.files.persist_error ≡ none
      → After (finish_mutation deps fingerprint id r m s)
  unfolding finish_mutation record_run
  finish_mutation-After r s fine =
      append-ends deps s After id _ _ (λ e t framed kept. tt)
        λ e t framed longer. settled t (ap (λ f. f.persist_error) framed.same_files ∙ fine)
    where
      settled :
          (t : Store L)
          → t.files.persist_error ≡ none
          → After (
              (must_persist "persist lifecycle mutation" id
                  >> pure (with_status r (finish_status m) (t.world.clock 0)))
                (recorded (with_status r (finish_status m) (t.world.clock 0)) t))
      settled t ok_ =
          let new = with_status r (finish_status m) (t.world.clock 0) in
          let held = recorded-Remembered new t ok_ in
          persist-ends (recorded new t) After "persist lifecycle mutation" id (pure new)
            (λ volatile. held) (λ x stuck. tt)
            (λ named fine_ w. record { known = held.known; fine = held.fine; answer = held.answer })
            (λ x named fine_ w. tt) (λ x named fine_ w. tt)

  fail_start-After :
      (message : String) (s : Store L) → After (fail_start deps fingerprint id m message s)
  unfolding fail_start record_run
  fail_start-After message s =
      append-ends deps s After id _ _ (λ e t framed kept. tt)
        λ e t framed longer. failing-After _ "persist failed start dispatch" _

  fail_stop-After :
      (message : String) (s : Store L) → After (fail_stop deps fingerprint id m message s)
  unfolding fail_stop record_run
  fail_stop-After message s = failing-After _ "persist failed stop dispatch" _

  abbrev asked : Effect → Store L → Store L
  asked effect s = record s {
    world = record s.world {
      driver = λ n. s.world.driver (n + 1);
      effects = effect ∷ s.world.effects;
    };
  }

  start_durable-After :
      (r : Run) (s : Store L)
      → s.files.persist_error ≡ none
      → After (start_durable deps fingerprint id r m s)
  unfolding start_durable
  start_durable-After r s fine =
      bind-ends (finish_mutation deps fingerprint id r m)
        (λ reserved. call_driver (started id) >>= λ e. dispatched deps fingerprint id m reserved e)
        s After
        (λ reserved t e.
          go reserved t (subst After e (finish_mutation-After r s fine)) (t.world.driver 0))
        (λ e t h. tt)
    where
      go :
          (reserved : Run) (t : Store L)
          → Remembered reserved t
          → (o : Option String)
          → After (dispatched deps fingerprint id m reserved o (asked (started id) t))
      go reserved t held none = record {
        known = held.known;
        fine = held.fine;
        answer = held.answer;
      }
      go reserved t held (some e) = fail_start-After e (asked (started id) t)

  start_volatile-After :
      (r : Run) (s : Store L)
      → s.files.persist_error ≡ none
      → After (start_volatile deps fingerprint id r m s)
  unfolding start_volatile
  start_volatile-After r s fine = go (s.world.driver 0)
    where
      go :
          (o : Option String)
          → After
              ((refuse_start o >> finish_mutation deps fingerprint id r m) (asked (started id) s))
      go none = finish_mutation-After r (asked (started id) s) fine
      go (some e) = tt

  stop_driven-After :
      (r : Run) (s : Store L)
      → s.files.persist_error ≡ none
      → After (stop_driven deps fingerprint id r m s)
  unfolding stop_driven record_run
  stop_driven-After r s fine =
      persist-ends (recorded new s) After "persist stopping run" id
        (call_driver (stopped id m.reason) >>= λ e. stop_answered deps fingerprint id m new e)
        (λ volatile. go (recorded new s) (recorded-Remembered new s fine) (s.world.driver 0))
        (λ x stuck. tt)
        (λ named fine_ w.
          let held = recorded-Remembered new s fine in
          go (replace_state id (next_write (recorded new s)))
            (record { known = held.known; fine = held.fine; answer = held.answer })
            (s.world.driver 0))
        (λ x named fine_ w. tt) (λ x named fine_ w. tt)
    where
      new : Run
      new = with_status r "stopping" (s.world.clock 0)

      go :
          (t : Store L)
          → Remembered new t
          → (o : Option String)
          → After (stop_answered deps fingerprint id m new o (asked (stopped id m.reason) t))
      go t held none = record { known = held.known; fine = held.fine; answer = held.answer }
      go t held (some e) = fail_stop-After e (asked (stopped id m.reason) t)

  dispatch-After :
      (r : Run) (s : Store L) (has_driver starting volatile : Bool)
      → s.files.persist_error ≡ none
      → After (
          if not has_driver
          then finish_mutation deps fingerprint id r m s
          else if starting
          then stop_driven deps fingerprint id r m s
          else if volatile
          then start_volatile deps fingerprint id r m s
          else start_durable deps fingerprint id r m s)
  dispatch-After r s false starting volatile fine = finish_mutation-After r s fine
  dispatch-After r s true true volatile fine = stop_driven-After r s fine
  dispatch-After r s true false true fine = start_volatile-After r s fine
  dispatch-After r s true false false fine = start_durable-After r s fine

  pub transition-After :
      (r : Run) (s : Store L)
      → s.files.persist_error ≡ none
      → After (transition deps fingerprint id r m s)
  unfolding transition
  transition-After r s fine =
      refuse-ends s After ((m.action == "start") && (r.status != "created")) _ _ tt λ started_ok.
        refuse-ends s After ((m.action == "stop") && (r.status != "running")) _
          (λ u. dispatch deps fingerprint id r m u.world.has_driver (u.files.root == "") u) tt
          λ stopped_ok.
            dispatch-After r s s.world.has_driver (m.action != "start") (s.files.root == "") fine
