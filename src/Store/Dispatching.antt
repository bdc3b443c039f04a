-- ===== src/Store/Dispatching.antt =====
-- The starts and stops of `mutateContext` in internal/api/server.go go through the steps of the store.
use harness_trajectory_bench.Prelude.{
  String, ◌≡◌, refl, sym, ap, ◌∙◌, subst, inl, true, Option, none, some, ◌!=◌, lookup, ℤ, nat_eq,
  string_eq, bool_eq, list_eq, pair_eq,
}
use harness_trajectory_bench.Store.Types.{LifecycleMutation, Run, ApiError, or_else, zero_run}
use harness_trajectory_bench.Store.State.{
  Book, started, stopped, Store, pure, raise, remember, set_run, ◌>>◌,
}
use harness_trajectory_bench.Store.Append.{Deps, execution_error}
use harness_trajectory_bench.Store.Mutate.{
  with_status, record_run, finish_mutation, finish_status, fail_start, dispatched, start_durable,
  refuse_start, start_volatile, fail_stop, stop_answered, stop_driven, mutation_key,
}
use harness_trajectory_bench.Store.Rules.{Framed, bind-ends}
use harness_trajectory_bench.Store.Lifecycle.{edge}
use harness_trajectory_bench.Store.Steps.{Turning, Trace, answered}
use harness_trajectory_bench.Store.Traces.{Any, Ends, append-Ends, call-Ends}
use harness_trajectory_bench.Store.Turns.{remember-Turning, Recorded, Settled, turn-Ends}

module _ {L : Type 0} (deps : Deps L) (fingerprint : LifecycleMutation → String)
    (first : Store L) where
  -- The run that an action answers with is in the store and on disk.
  abbrev pub Answered : String → String → Run → Store L → Type 0
  Answered id status r t = Settled id r t × (r.status ≡ status)

  abbrev turn_change : String → Run → LifecycleMutation → Option ApiError → Book → Book
  turn_change id r m failure b =
      remember (m.idempotency_key != "") (mutation_key id m)
        (record { run = r; request = fingerprint m; failure = failure }) (set_run id r b)

  turn_change-Turning :
      (id : String) (r : Run) (m : LifecycleMutation) (failure : Option ApiError) (b : Book)
      → Turning id r b (turn_change id r m failure b)
  turn_change-Turning id r m failure b = remember-Turning (m.idempotency_key != "") _ _ id b

  moved_runs :
      {s t : Store L} (id : String) (r : Run)
      → Framed s t
      → lookup id s.book.runs ≡ some r
      → lookup id t.book.runs ≡ some r
  moved_runs id r framed found = rw framed.same_book found

  abbrev stored : Store L → String → Run
  stored s id = or_else zero_run (lookup id s.book.runs)

  stored-found :
      (s : Store L) (id : String) (r : Run) → lookup id s.book.runs ≡ some r → stored s id ≡ r
  stored-found s id r found = ap (or_else zero_run) found

  pub finish_mutation-Ends :
      (s : Store L) (id : String) (r : Run) (m : LifecycleMutation)
      → Trace deps first s
      → lookup id s.book.runs ≡ some r
      → edge r.status (finish_status m) ≡ true
      → Ends deps first (Answered id (finish_status m)) (finish_mutation deps fingerprint id r m s)
  unfolding finish_mutation record_run
  finish_mutation-Ends s id r m trace found turn =
      append-Ends deps first s (Answered id (finish_status m)) trace id _ _ λ e t framed reached.
        turn-Ends deps first t (Answered id (finish_status m)) reached id r (finish_status m)
          "persist lifecycle mutation"
          (λ time b. turn_change id (with_status r (finish_status m) time) m none b)
          (λ time. pure (with_status r (finish_status m) time)) (moved_runs id r framed found) turn
          (λ time b. turn_change-Turning id _ m none b)
          (λ time u done_ same settled. (done_, (settled, refl)))

  fail_start-Ends :
      (s : Store L) (id : String) (r : Run) (m : LifecycleMutation) (message : String)
      → Trace deps first s
      → lookup id s.book.runs ≡ some r
      → edge r.status "failed" ≡ true
      → Ends deps first Any (fail_start deps fingerprint id m message s)
  unfolding fail_start record_run
  fail_start-Ends s id r m message trace found turn =
      append-Ends deps first s Any trace id _ _ λ e t framed reached.
        turn-Ends deps first t Any reached id (stored s id) "failed" "persist failed start dispatch"
          (λ time b.
            turn_change id (with_status (stored s id) "failed" time) m
              (some (execution_error "start run" message)) b)
          (λ time. raise (execution_error "start run" message))
          (moved_runs id (stored s id) framed (found ∙ ap some (sym (stored-found s id r found))))
          (rw (stored-found s id r found) turn) (λ time b. turn_change-Turning id _ m _ b)
          (λ time u reached_u same settled. reached_u)

  fail_stop-Ends :
      (s : Store L) (id : String) (r : Run) (m : LifecycleMutation) (message : String)
      → Trace deps first s
      → lookup id s.book.runs ≡ some r
      → edge r.status "running" ≡ true
      → Ends deps first Any (fail_stop deps fingerprint id m message s)
  unfolding fail_stop record_run
  fail_stop-Ends s id r m message trace found turn =
      turn-Ends deps first s Any trace id (stored s id) "running" "persist failed stop dispatch"
        (λ time b.
          turn_change id (with_status (stored s id) "running" time) m
            (some (execution_error "stop run" message)) b)
        (λ time. raise (execution_error "stop run" message))
        (found ∙ ap some (sym (stored-found s id r found))) (rw (stored-found s id r found) turn)
        (λ time b. turn_change-Turning id _ m _ b) (λ time u reached_u same settled. reached_u)

  dispatched-Ends :
      (s : Store L) (id : String) (r : Run) (m : LifecycleMutation) (o : Option String)
      → Trace deps first s
      → lookup id s.book.runs ≡ some r
      → edge r.status "failed" ≡ true
      → Ends deps first Any (dispatched deps fingerprint id m r o s)
  dispatched-Ends s id r m none trace found turn = (trace, tt)
  dispatched-Ends s id r m (some e) trace found turn = fail_start-Ends s id r m e trace found turn

  pub start_durable-Ends :
      (s : Store L) (id : String) (r : Run) (m : LifecycleMutation)
      → Trace deps first s
      → lookup id s.book.runs ≡ some r
      → edge r.status (finish_status m) ≡ true
      → finish_status m ≡ "running"
      → Ends deps first Any (start_durable deps fingerprint id r m s)
  unfolding edge start_durable
  start_durable-Ends s id r m trace found turn running =
      bind-ends (finish_mutation deps fingerprint id r m) _ s (Ends deps first Any)
        (λ reserved t e.
          let (reached, (settled, same)) =
            subst (Ends deps first (Answered id (finish_status m))) e
              (finish_mutation-Ends s id r m trace found turn) in
          call-Ends deps first t Any reached (started id)
            (λ x. dispatched deps fingerprint id m reserved x)
            (subst (λ status. Recorded id status t) (same ∙ running) settled.recorded)
            (λ o later.
              dispatched-Ends (answered deps (started id) t) id reserved m o later settled.held
                (rw (same ∙ running) refl)))
        (λ e t h.
          subst (Ends deps first (Answered id (finish_status m))) h
            (finish_mutation-Ends s id r m trace found turn))

  pub start_volatile-Ends :
      (s : Store L) (id : String) (r : Run) (m : LifecycleMutation)
      → Trace deps first s
      → lookup id s.book.runs ≡ some r
      → edge r.status (finish_status m) ≡ true
      → s.files.root ≡ ""
      → Ends deps first (Answered id (finish_status m)) (start_volatile deps fingerprint id r m s)
  unfolding start_volatile
  start_volatile-Ends s id r m trace found turn volatile =
      call-Ends deps first s (Answered id (finish_status m)) trace (started id)
        (λ x. refuse_start x >> finish_mutation deps fingerprint id r m) (inl volatile)
        λ o later. go o later
    where
      go :
          (o : Option String)
          → Trace deps first (answered deps (started id) s)
          → Ends deps first (Answered id (finish_status m)) (
              (refuse_start o >> finish_mutation deps fingerprint id r m)
                (answered deps (started id) s))
      go none later = finish_mutation-Ends (answered deps (started id) s) id r m later found turn
      go (some e) later = later

  pub stop_driven-Ends :
      (s : Store L) (id : String) (r : Run) (m : LifecycleMutation)
      → Trace deps first s
      → lookup id s.book.runs ≡ some r
      → r.status ≡ "running"
      → Ends deps first Any (stop_driven deps fingerprint id r m s)
  unfolding edge stop_driven record_run
  stop_driven-Ends s id r m trace found running =
      turn-Ends deps first s Any trace id r "stopping" "persist stopping run"
        (λ time b. turn_change id (with_status r "stopping" time) m none b) _ found
        (rw running refl) (λ time b. turn_change-Turning id _ m none b)
        (λ time t reached same settled.
          call-Ends deps first t Any reached (stopped id m.reason)
            (λ x. stop_answered deps fingerprint id m (with_status r "stopping" time) x)
            settled.recorded (λ o later. go time t o settled later))
    where
      go :
          (time : ℤ) (t : Store L) (o : Option String)
          → Settled id (with_status r "stopping" time) t
          → Trace deps first (answered deps (stopped id m.reason) t)
          → Ends deps first Any (
              stop_answered deps fingerprint id m
                (with_status r "stopping" time)
                o
                (answered deps (stopped id m.reason) t))
      go time t none settled later = (later, tt)
      go time t (some e) settled later =
          fail_stop-Ends (answered deps (stopped id m.reason) t) id (with_status r "stopping" time)
            m e later settled.held refl
