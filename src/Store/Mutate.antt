-- ===== src/Store/Mutate.antt =====
-- `mutateContext` and `finishMutationLocked` of internal/api/server.go.
use Prim.Native.String
use harness_trajectory_bench.Prelude.{
  String, Bool, ◌&&◌, not, Option, none, some, if◌then◌else◌, ◌==◌, ◌!=◌, ℤ, nat_eq, string_eq,
  bool_eq, list_eq, pair_eq,
}
use harness_trajectory_bench.Store.Types.{LifecycleMutation, Run, ApiError, at_key, zero_run}
use harness_trajectory_bench.Store.State.{
  started, stopped, Action, pure, raise, refuse, gets, modify_book, now, call_driver, set_run,
  remember, ◌>>=◌, ◌>>◌,
}
use harness_trajectory_bench.Store.Persist.{must_persist, latched}
use harness_trajectory_bench.Store.Append.{
  Deps, api_error, execution_error, append_locked, lifecycle_event, find_run, prior_run,
  unless_prior,
}

abbrev pub mutation_key : String → LifecycleMutation → String
mutation_key id m = String.◌++◌ "mutation:" (String.◌++◌ id (String.◌++◌ ":" m.idempotency_key))

abbrev pub with_status : Run → String → ℤ → Run
with_status r status t = record r { status = status; updated_at = some t }

abbrev pub finish_type : LifecycleMutation → String
finish_type m = if m.action == "stop" then "run/finish" else "run/start"

abbrev pub finish_status : LifecycleMutation → String
finish_status m = if m.action == "stop" then "stopped" else "running"

module _ {L : Type 0} where
  abbrev pub refuse_start : Option String → Action L (Unit {0})
  refuse_start none = pure tt
  refuse_start (some e) = raise (execution_error "start run" e)

module _ {L : Type 0} (deps : Deps L) (fingerprint : LifecycleMutation → String) where
  -- The new state of a run, and the answer to requests with the same key.
  unfoldable pub record_run :
      String → Run → LifecycleMutation → Option ApiError → Action L (Unit {0})
  record_run id r m failure = modify_book λ b.
      remember (m.idempotency_key != "") (mutation_key id m)
        (record { run = r; request = fingerprint m; failure = failure }) (set_run id r b)

  unfoldable pub finish_mutation : String → Run → LifecycleMutation → Action L Run
  finish_mutation id r m = do
    stored ← append_locked deps id (lifecycle_event deps (finish_type m) m.reason (finish_status m))
    t ← now
    record_run id (with_status r (finish_status m) t) m none
    must_persist "persist lifecycle mutation" id
    pure (with_status r (finish_status m) t)

  -- The driver refused a start that is on disk already.
  unfoldable pub fail_start : String → LifecycleMutation → String → Action L Run
  fail_start id m message = do
    r ← gets (λ s. at_key zero_run id s.book.runs)
    stored ←
        append_locked deps id (lifecycle_event deps "run/finish" "start dispatch failed" "failed")
    t ← now
    record_run id (with_status r "failed" t) m (some (execution_error "start run" message))
    must_persist "persist failed start dispatch" id
    raise (execution_error "start run" message)

  abbrev pub dispatched : String → LifecycleMutation → Run → Option String → Action L Run
  dispatched id m reserved none = pure reserved
  dispatched id m reserved (some e) = fail_start id m e

  unfoldable pub start_durable : String → Run → LifecycleMutation → Action L Run
  start_durable id r m = do
    reserved ← finish_mutation id r m
    e ← call_driver (started id)
    dispatched id m reserved e

  unfoldable pub start_volatile : String → Run → LifecycleMutation → Action L Run
  start_volatile id r m = do e ← call_driver (started id); refuse_start e; finish_mutation id r m

  unfoldable pub fail_stop : String → LifecycleMutation → String → Action L Run
  fail_stop id m message = do
    r ← gets (λ s. at_key zero_run id s.book.runs)
    t ← now
    record_run id (with_status r "running" t) m (some (execution_error "stop run" message))
    must_persist "persist failed stop dispatch" id
    raise (execution_error "stop run" message)

  abbrev pub stop_answered : String → LifecycleMutation → Run → Option String → Action L Run
  stop_answered id m stopping none = pure stopping
  stop_answered id m stopping (some e) = fail_stop id m e

  unfoldable pub stop_driven : String → Run → LifecycleMutation → Action L Run
  stop_driven id r m = do
    t ← now
    record_run id (with_status r "stopping" t) m none
    must_persist "persist stopping run" id
    e ← call_driver (stopped id m.reason)
    stop_answered id m (with_status r "stopping" t) e

  -- Whether there is a driver, and whether the store has no persistence root.
  abbrev pub dispatch : String → Run → LifecycleMutation → Bool → Bool → Action L Run
  dispatch id r m has_driver volatile s =
      if not has_driver
      then finish_mutation id r m s
      else if m.action != "start"
      then stop_driven id r m s
      else if volatile
      then start_volatile id r m s
      else start_durable id r m s

  unfoldable pub transition : String → Run → LifecycleMutation → Action L Run
  transition id r m = do
    refuse ((m.action == "start") && (r.status != "created"))
        (api_error "conflict" "only created runs can start")
    refuse ((m.action == "stop") && (r.status != "running"))
        (api_error "conflict" "only running runs can stop")
    has_driver ← gets (λ s. s.world.has_driver)
    root ← gets (λ s. s.files.root)
    dispatch id r m has_driver (root == "")

  unfoldable pub mutate : String → LifecycleMutation → Action L Run
  mutate id m = do
    refuse ((m.action != "start") && (m.action != "stop"))
        (api_error "validation" "action must be start or stop")
    latched
    r ← find_run id
    prior ← prior_run (m.idempotency_key != "") (mutation_key id m) (fingerprint m)
    unless_prior prior (transition id r m)
