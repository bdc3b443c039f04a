-- ===== src/Store/Append.antt =====
-- `appendLocked` of internal/api/server.go, and the helpers that its methods share.
use harness_trajectory_bench.Prelude.{
  ◌+◌, ◌/◌, String, Bool, true, false, not, Option, none, some, List, ◌∷◌, ◌++◌, ◌!=◌, Bytes,
  length, Result, ok, err, Check, lookup, insert, ℤ, pos, negsuc, uint64, [], nat_eq, string_eq,
  bool_eq, list_eq, pair_eq,
}
use harness_trajectory_bench.Hex.{Sha256}
use harness_trajectory_bench.Events.Types.{TrackedEvent}
use harness_trajectory_bench.Events.Codec.{Codec}
use harness_trajectory_bench.Events.Validate.{validate_event}
use harness_trajectory_bench.Appender.State.{is_zero}
use harness_trajectory_bench.Store.Types.{
  CreateRunRequest, LifecycleMutation, Run, ApiError, IdempotencyRecord, EventLog, at_key,
}
use harness_trajectory_bench.Store.State.{
  Store, Reply, done, failed, Action, pure, raise, refuse, now, ◌>>=◌, ◌>>◌,
}
use harness_trajectory_bench.Store.Persist.{with_context}

abbrev pub api_error : String → String → ApiError
api_error code message = record { code = code; message = message }

-- `executionError`
abbrev pub execution_error : String → String → ApiError
execution_error operation message = api_error "execution" (with_context operation message)

abbrev pub not_found : ApiError
not_found = api_error "not_found" "run not found"

-- `UnixMilli` of a time in nanoseconds, rounded down.
abbrev pub unix_milli : ℤ → ℤ
unix_milli (pos n) = pos (n / 1000000)
unix_milli (negsuc n) = negsuc (n / 1000000)

-- What the store needs from the code around it: the trusted logs, the JSON codec and the hash of
-- event validation, and what `json.Marshal` prints of the data and the requests.
pub record Deps (L : Type 0) : Type 0 where
  pub log : EventLog L
  pub json : Codec
  pub hash : Sha256
  pub lifecycle_data : String → String → Bytes  -- of a reason and a status
  pub create_print : CreateRunRequest → String
  pub mutation_print : LifecycleMutation → String

module _ {L : Type 0} (deps : Deps L) where
  abbrev pub put_log : String → L → Store L → Store L
  put_log id log s = record s {
    logs = record s.logs { event_logs = insert id log s.logs.event_logs };
  }

  abbrev pub logged : String → Store L → L × Result TrackedEvent → Reply TrackedEvent × Store L
  logged id s (log, ok event) = (done event, put_log id log s)
  logged id s (log, err m) =
      (failed (api_error "internal" (with_context "append tracked event" m)), put_log id log s)

  abbrev pub held_in_memory : String → Store L → List TrackedEvent
  held_in_memory id s = at_key [] id s.logs.events

  abbrev pub keep_event : String → TrackedEvent → Check → Action L TrackedEvent
  keep_event id event (err m) s =
      raise (api_error "validation" (with_context "invalid tracked event" m)) s
  keep_event id event (ok valid) s = (
    done event,
    record s {
      logs = record s.logs { events = insert id (held_in_memory id s ++ event ∷ []) s.logs.events };
    },
  )

  -- Without a trusted log the store numbers, stamps and checks the event itself.
  unfoldable pub append_in_memory : String → TrackedEvent → Action L TrackedEvent
  append_in_memory id event s =
      (do
        t ← now
        let stamped = record event {
          seq = uint64 (length (held_in_memory id s) + 1);
          time = unix_milli t;
        }
        keep_event id stamped (validate_event deps.json deps.hash stamped))
        s

  abbrev pub append_to : Option L → String → TrackedEvent → Action L TrackedEvent
  append_to (some log) id event s = logged id s (deps.log.append log event)
  append_to none id event s = append_in_memory id event s

  unfoldable pub append_locked : String → TrackedEvent → Action L TrackedEvent
  append_locked id event s =
      (do
        refuse (event.seq != 0)
            (api_error "validation" "event seq is assigned only by the trusted appender")
        refuse (not (is_zero event.time))
            (api_error "validation" "event time is assigned only by the trusted appender")
        append_to (lookup id s.logs.event_logs) id event)
        s

  -- An unsequenced event of the lifecycle.
  abbrev pub lifecycle_event : String → String → String → TrackedEvent
  lifecycle_event event_type reason status = record {
    seq = 0;
    time = pos 0;
    event_type = event_type;
    raw_data = deps.lifecycle_data reason status;
    ignorable = true;
    source_event_seqs = [];
    surface_op = [];
  }

  abbrev pub snapshot_or : List TrackedEvent → Option L → List TrackedEvent
  snapshot_or held (some log) = deps.log.snapshot log
  snapshot_or held none = held

  -- The events of a run, wherever they are kept.
  abbrev pub events_of : String → Store L → List TrackedEvent
  events_of id s = snapshot_or (held_in_memory id s) (lookup id s.logs.event_logs)

module _ {L : Type 0} where
  abbrev pub found : Option Run → Action L Run
  found none = raise not_found
  found (some r) = pure r

  -- `r, ok := s.runs[id]`, and the error if there is none.
  abbrev pub find_run : String → Action L Run
  find_run id s = found (lookup id s.book.runs) s

  abbrev pub answer_with : Run → Option ApiError → Action L (Option Run)
  answer_with r none = pure (some r)
  answer_with r (some e) = raise e

  abbrev pub answer_again : IdempotencyRecord → Action L (Option Run)
  answer_again r = answer_with r.run r.failure

  abbrev pub match_request : String → Option IdempotencyRecord → Action L (Option Run)
  match_request request none = pure none
  match_request request (some r) = do
    refuse (r.request != request)
        (api_error "conflict" "idempotency key was used for a different request")
    answer_again r

  -- The answer to an earlier request with the same key, if the request has one.
  abbrev pub prior_run : Bool → String → String → Action L (Option Run)
  prior_run false key request s = (done none, s)
  prior_run true key request s = match_request request (lookup key s.book.idempotency) s

  abbrev pub unless_prior : Option Run → Action L Run → Action L Run
  unless_prior (some r) next = pure r
  unless_prior none next = next
