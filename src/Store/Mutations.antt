-- ===== src/Store/Mutations.antt =====
-- `mutateContext` of internal/api/server.go goes through the steps of the store.
use harness_trajectory_bench.Prelude.{
  String, ◌≡◌, refl, inl, inr, Bool, true, false, ◌&&◌, some, arith, ◌==◌, ◌!=◌, ==_iff, Bool-cases,
  !=-eq-false, lookup, nat_eq, string_eq, bool_eq, list_eq, pair_eq,
}
use harness_trajectory_bench.Store.Types.{LifecycleMutation, Run}
use harness_trajectory_bench.Store.State.{Store, Reply, done, failed, Action, ◌>>=◌}
use harness_trajectory_bench.Store.Append.{Deps, prior_run, unless_prior, find_run}
use harness_trajectory_bench.Store.Mutate.{
  finish_mutation, finish_status, start_volatile, dispatch, transition, mutate, mutation_key,
}
use harness_trajectory_bench.Store.Rules.{prior-ends}
use harness_trajectory_bench.Store.Lifecycle.{edge}
use harness_trajectory_bench.Store.Steps.{Trace}
use harness_trajectory_bench.Store.Traces.{
  Any, forget, Ends, Ends-Trace, refuse-Ends, latched-Ends, find-Ends,
}
use harness_trajectory_bench.Store.Dispatching.{
  Answered, finish_mutation-Ends, start_durable-Ends, start_volatile-Ends, stop_driven-Ends,
}

module _ {L : Type 0} (deps : Deps L) (fingerprint : LifecycleMutation → String)
    (first : Store L) where
  -- The guards of `mutateContext` leave a start of a created run and a stop of a running one.
  data Allowed (r : Run) (m : LifecycleMutation) : Type 0 where
    starts :
        (m.action != "start") ≡ false
        → finish_status m ≡ "running"
        → r.status ≡ "created"
        → Allowed r m
    stops :
        (m.action != "start") ≡ true
        → finish_status m ≡ "stopped"
        → r.status ≡ "running"
        → Allowed r m

  guards-Allowed :
      (r : Run) (m : LifecycleMutation)
      → ((m.action != "start") && (m.action != "stop")) ≡ false
      → ((m.action == "start") && (r.status != "created")) ≡ false
      → ((m.action == "stop") && (r.status != "running")) ≡ false
      → Allowed r m
  guards-Allowed r m known started_ok stopped_ok = elim (Bool-cases (m.action == "start")) [
    | inl e ↦
        starts (rw ((==_iff m.action "start").0 e) refl) (rw ((==_iff m.action "start").0 e) refl)
          (!=-eq-false r.status "created" (ground arith))
    | inr e ↦
        let f : m.action ≡ "stop" = !=-eq-false m.action "stop" (ground arith) in
        stops (rw f refl) (rw f refl)
          (!=-eq-false r.status "running" (ground (arith, (==_iff m.action "stop").1 f)))
  ]

  Allowed-edge :
      (r : Run) (m : LifecycleMutation) → Allowed r m → edge r.status (finish_status m) ≡ true
  unfolding edge
  Allowed-edge r m (starts action finish created) = rw (created, finish) refl
  Allowed-edge r m (stops action finish running) = rw (running, finish) refl

  dispatch-Ends :
      (s : Store L) (id : String) (r : Run) (m : LifecycleMutation) (has_driver : Bool)
      → Trace deps first s
      → lookup id s.book.runs ≡ some r
      → Allowed r m
      → (volatile : Bool) → (s.files.root == "") ≡ volatile
      → Ends deps first Any (dispatch deps fingerprint id r m has_driver volatile s)
  dispatch-Ends s id r m false trace found allowed volatile v =
      forget deps first (Answered deps fingerprint first id (finish_status m))
        (finish_mutation deps fingerprint id r m s)
        (finish_mutation-Ends deps fingerprint first s id r m trace found
          (Allowed-edge r m allowed))
  dispatch-Ends s id r m true trace found (stops action finish running) volatile v =
      rw action (stop_driven-Ends deps fingerprint first s id r m trace found running)
  dispatch-Ends s id r m true trace found (starts action finish created) true v = rw action (
      forget deps first (Answered deps fingerprint first id (finish_status m))
        (start_volatile deps fingerprint id r m s)
        (start_volatile-Ends deps fingerprint first s id r m trace found
          (Allowed-edge r m (starts action finish created)) ((==_iff s.files.root "").0 v)))
  dispatch-Ends s id r m true trace found (starts action finish created) false v = rw action (
      start_durable-Ends deps fingerprint first s id r m trace found
        (Allowed-edge r m (starts action finish created)) finish)

  transition-Ends :
      (s : Store L) (id : String) (r : Run) (m : LifecycleMutation)
      → Trace deps first s
      → lookup id s.book.runs ≡ some r
      → ((m.action != "start") && (m.action != "stop")) ≡ false
      → Ends deps first Any (transition deps fingerprint id r m s)
  unfolding transition
  transition-Ends s id r m trace found known =
      refuse-Ends deps first s Any trace ((m.action == "start") && (r.status != "created")) _ _
        λ started_ok.
          refuse-Ends deps first s Any trace ((m.action == "stop") && (r.status != "running")) _
            dispatched_with
            λ stopped_ok.
              dispatch-Ends s id r m s.world.has_driver trace found
                (guards-Allowed r m known started_ok stopped_ok) (s.files.root == "") refl
    where
      dispatched_with : Action L Run
      dispatched_with u = dispatch deps fingerprint id r m u.world.has_driver (u.files.root == "") u

  pub mutate-Trace :
      (s : Store L) (id : String) (m : LifecycleMutation)
      → Trace deps first s
      → Trace deps first (mutate deps fingerprint id m s).1
  unfolding mutate
  mutate-Trace s id m trace = Ends-Trace deps first Any (mutate deps fingerprint id m s) (
      refuse-Ends deps first s Any trace ((m.action != "start") && (m.action != "stop")) _ _
        λ known. latched-Ends deps first s Any trace (find_run id >>= λ r. found_action r) (
          find-Ends deps first s Any trace id (λ r. found_action r)
            λ r found.
              prior-ends s (Ends deps first Any) (m.idempotency_key != "") (mutation_key id m)
                (fingerprint m) (transition deps fingerprint id r m) again
                λ new. transition-Ends s id r m trace found known))
    where
      found_action : Run → Action L Run
      found_action r =
          prior_run (m.idempotency_key != "") (mutation_key id m) (fingerprint m) >>= λ prior.
          unless_prior prior (transition deps fingerprint id r m)

      again : (x : Reply Run) → Ends deps first Any (x, s)
      again (done a) = (trace, tt)
      again (failed e) = trace
