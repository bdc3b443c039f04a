-- ===== src/Tests/Appending.antt =====
-- A log of two events, and the theorems on it.
use harness_trajectory_bench.Events.Helpers.{is_json_object, validate_surface_op}
use harness_trajectory_bench.Events.Core.{validate_core}
use harness_trajectory_bench.Appender.Lines.{IsLine}
use harness_trajectory_bench.Prelude.{
  ◌+◌, String, ◌≡◌, refl, subst, ◌⊎◌, true, false, none, some, List, [], ◌∷◌, ◌++◌, ◌==◌, nat_eq,
  string_eq, bool_eq, list_eq, pair_eq, Bytes, length, is_nil, ok, err, pass, pos, uint64,
}
use harness_trajectory_bench.Hex.{hex_encode}
use harness_trajectory_bench.Hex.Collides.{Collides}
use harness_trajectory_bench.Events.Types.{TrackedEvent}
use harness_trajectory_bench.Events.Validate.{validate_event}
use harness_trajectory_bench.Appender.Frames.{
  newline, zero_head, recover_frames, validate_frames, split_lines,
}
use harness_trajectory_bench.Appender.State.{
  Appender, AppendEnv, open_log, encode_frame, commit, append, SealEnv, write_marker, seal,
}
use harness_trajectory_bench.Appender.Durable.{ReadsBack, stamp}
use harness_trajectory_bench.Appender.Sound.{
  Trusted, validate_frames_sound, validate_frames_bind, links, link_inputs,
}
use harness_trajectory_bench.Appender.Session.{
  working, Reach, here, next, Step-IsKept, appended, refused, sealed,
}
use harness_trajectory_bench.Appender.Lifetime.{
  created, created-IsKept, session_recovers, sealed_for_good,
}
use harness_trajectory_bench.Appender.Failure.{append_failure, sync_failure_poisons}
use harness_trajectory_bench.Tests.Fixtures.{toy_hash, toy_json, plain, read_frame}

abbrev pub calm : AppendEnv
calm = record { now = pos 0; answers = []; synced = true }

abbrev started : TrackedEvent
started = plain "run/start"

module _ (env : AppendEnv) (a : Appender) (h : (a.next_seq == newline) ≡ false) where
  printed :
      (p : Bytes)
      → some (b'{' ∷ a.next_seq ∷ b'}' ∷ []) ≡ some p
      → b'{' ∷ a.next_seq ∷ b'}' ∷ [] ≡ p
  printed p e = cc e

  back : env.now ≡ pos 0 → ReadsBack toy_json (stamp env a started)
  back z = record {
    reads = λ p e. subst (λ q. read_frame q ≡ some (stamp env a started)) (printed p e) (rw z);
    one_line = λ p e. subst IsLine (printed p e) (refl, (h, (refl, tt)));
    not_empty = λ p e. subst (λ q. is_nil q ≡ false) (printed p e) refl;
  }

abbrev pub one : Appender
one = (append toy_json toy_hash calm created started).0

one_acknowledged :
    (append toy_json toy_hash calm created started).1 ≡ ok (record started { seq = 1 })
unfolding append encode_frame commit validate_event is_json_object validate_surface_op validate_core
one_acknowledged = refl

pub session : Reach toy_json toy_hash created one
session = next here (appended calm created started _ (back calm created refl refl) one_acknowledged)

session_recovers_example :
    (open_log toy_json toy_hash working "run.jsonl" one.file one.seal_marker
      ≡ ok (record one { closed = false }))
    × Trusted toy_json toy_hash 1 one.events
    × (one.next_seq ≡ uint64 (length one.events + 1))
session_recovers_example = session_recovers toy_json toy_hash one "run.jsonl" (λ e. cc) session

abbrev pub calm_seal : SealEnv
calm_seal = record {
  log_synced = true;
  marker_created = true;
  marker_read = true;
  torn = none;
  marker_synced = true;
  marker_closed = true;
  directory_opened = true;
  directory_synced = true;
  directory_closed = true;
}

abbrev shut : Appender
shut = (seal calm_seal created).0

seal_done : (seal calm_seal created).1 ≡ pass
unfolding seal write_marker
seal_done = refl

shut_refuses :
    encode_frame toy_json toy_hash calm.now shut started ≡ err "tracked event log is sealed"
unfolding encode_frame seal write_marker
shut_refuses = refl

sealed_for_good_example :
    ((append toy_json toy_hash calm shut started).0.file ≡ shut.file)
    × ((append toy_json toy_hash calm shut started).0.events ≡ shut.events)
    × ((append toy_json toy_hash calm shut started).0.sealed ≡ true)
unfolding write_marker
sealed_for_good_example =
    sealed_for_good toy_json toy_hash
      (Step-IsKept toy_json toy_hash (sealed calm_seal created seal_done)
        (created-IsKept toy_json toy_hash))
      (unfold seal in refl) (next here (refused calm shut started _ shut_refuses))

abbrev unsynced : AppendEnv
unsynced = record calm { synced = false }

abbrev framed : TrackedEvent × Bytes
framed = (record started { seq = 1 }, b'{' ∷ 1 ∷ b'}' ∷ newline ∷ [])

sync_failure_poisons_example :
    recover_frames toy_json toy_hash
      (append toy_json toy_hash calm
        (append toy_json toy_hash unsynced created started).0
        started).0.file
    ≡ err "frame has another seq"
unfolding append encode_frame commit validate_event is_json_object validate_surface_op validate_core
sync_failure_poisons_example =
    sync_failure_poisons toy_json toy_hash unsynced calm created started started framed
      {e = record started { seq = 1 }} (created-IsKept toy_json toy_hash).durable
      (back unsynced created refl refl) (back calm created refl refl) refl refl refl refl

append_failure_example :
    (part : Bytes) × ((append toy_json toy_hash unsynced created started).0
      ≡ record created { file = created.file ++ part })
unfolding append encode_frame commit validate_event is_json_object validate_surface_op validate_core
append_failure_example =
    append_failure toy_json toy_hash unsynced created started {message = "sync event frame"} refl

abbrev two_frames : Bytes
two_frames = b'{' ∷ 1 ∷ b'}' ∷ newline ∷ b'{' ∷ 2 ∷ b'}' ∷ newline ∷ []

abbrev two_events : List TrackedEvent
two_events = record started { seq = 1 } ∷ record started { seq = 2 } ∷ []

abbrev two_head : String
two_head = hex_encode (links toy_hash zero_head (split_lines [] two_frames))

two_accepted : validate_frames toy_json toy_hash two_frames ≡ ok (two_events, two_head)
unfolding validate_frames recover_frames validate_event is_json_object validate_surface_op
    validate_core links toy_hash
two_accepted = refl

validate_frames_sound_example :
    Trusted toy_json toy_hash 1 two_events
    × (length two_events ≡ length (split_lines [] two_frames))
    × (two_head ≡ hex_encode (links toy_hash zero_head (split_lines [] two_frames)))
validate_frames_sound_example = validate_frames_sound toy_json toy_hash two_frames two_accepted

validate_frames_bind_example :
    (two_frames ≡ two_frames)
    ⊎ Collides toy_hash
        (link_inputs toy_hash zero_head (split_lines [] two_frames))
        (link_inputs toy_hash zero_head (split_lines [] two_frames))
validate_frames_bind_example =
    validate_frames_bind toy_json toy_hash two_frames two_frames {es = two_events} {fs = two_events}
      refl two_accepted two_accepted
