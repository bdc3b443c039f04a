-- ===== src/Log/Replay.antt =====
-- internal/replay/replay.go: the conversation surface of a log.
use harness_trajectory_bench.Prelude.{
  String, Bool, ◌||◌, Option, none, some, List, [], ◌∷◌, ◌++◌, ltb, if◌then◌else◌, ◌!=◌, nat_eq,
  string_eq, bool_eq, list_eq, pair_eq, is_nil, keep_if, Result, ok, err, ◌>>=◌, ◌>>◌, reject,
}
use harness_trajectory_bench.Events.Types.{TrackedEvent, ReplaceSurfaceOp}
use harness_trajectory_bench.Events.Codec.{Codec}
use harness_trajectory_bench.Events.Helpers.{validate_surface_op}

-- Outside the range that a replacement removes.
abbrev pub kept : ReplaceSurfaceOp → TrackedEvent → Bool
kept range prior = ltb prior.seq range.start || ltb range.end prior.seq

module _ (json : Codec) where
  -- The operation of an event, if it has one: its text, or the object that it holds.
  abbrev pub surface_change : TrackedEvent → Option (Option String × Option ReplaceSurfaceOp)
  surface_change e =
      if is_nil e.surface_op
      then none
      else some (json.text e.surface_op, json.replace_range e.surface_op)

  -- The object is read only if the operation is no text.
  abbrev pub change_surface :
      List TrackedEvent
      → TrackedEvent
      → Option String × Option ReplaceSurfaceOp
      → Result (List TrackedEvent)
  change_surface surface e (some op, range) = do
    reject (op != "append") "unsupported surface operation"
    ok (surface ++ e ∷ [])
  change_surface surface e (none, none) = err "json"
  change_surface surface e (none, some range) = ok (keep_if (kept range) surface ++ e ∷ [])

  abbrev pub apply_change :
      List TrackedEvent
      → TrackedEvent
      → Option (Option String × Option ReplaceSurfaceOp)
      → Result (List TrackedEvent)
  apply_change surface e none = ok surface
  apply_change surface e (some change) = change_surface surface e change

  -- `Apply`: the surface after an event.
  unfoldable pub apply : List TrackedEvent → TrackedEvent → Result (List TrackedEvent)
  apply surface e = do
    validate_surface_op json e.surface_op
    apply_change surface e (surface_change e)

  unfoldable pub replay_from : List TrackedEvent → List TrackedEvent → Result (List TrackedEvent)
  replay_from surface [] = ok surface
  replay_from surface (e ∷ log) = do next ← apply surface e; replay_from next log

  unfoldable pub replay : List TrackedEvent → Result (List TrackedEvent)
  replay log = replay_from [] log
