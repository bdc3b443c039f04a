-- ===== src/Appender/Lifetime.antt =====
-- Restarts lose nothing that was acknowledged, and a seal is for good.
use harness_trajectory_bench.Prelude.{
  ◌+◌, String, ◌≡◌, refl, ◌∙◌, subst, ◌≢◌, true, false, none, [], arith, nat_eq, string_eq, bool_eq,
  list_eq, pair_eq, length, ok, uint64,
}
use harness_trajectory_bench.Hex.{Sha256, hex_encode}
use harness_trajectory_bench.Events.Codec.{Codec}
use harness_trajectory_bench.Appender.Frames.{zero_head, recover_frames, validate_frames}
use harness_trajectory_bench.Appender.State.{Appender, open_log, append, seal, close}
use harness_trajectory_bench.Appender.Durable.{IsDurable}
use harness_trajectory_bench.Appender.Commit.{append-Appended}
use harness_trajectory_bench.Appender.Sound.{Trusted, validate_frames_sound}
use harness_trajectory_bench.Appender.Session.{
  working, IsKept, open_log-IsKept, Step, appended, refused, sealed, closed, reopened, Reach, here,
  next, Reach-IsKept,
}

-- A log that has just been created.
abbrev pub created : Appender
created = record {
  file = [];
  seal_marker = none;
  events = [];
  head = zero_head;
  next_seq = 1;
  sealed = false;
  closed = false;
}

module _ (json : Codec) (hash : Sha256) where
  pub created-IsKept : IsKept json hash created
  unfolding recover_frames
  created-IsKept = record { durable = record { recovers = refl; numbered = refl }; marked = refl }

  pub IsDurable-Trusted : (a : Appender) → IsDurable json hash a → Trusted json hash 1 a.events
  unfolding validate_frames
  IsDurable-Trusted a d =
      (validate_frames_sound json hash a.file {events = a.events} {head = hex_encode a.head}
        (rw d.recovers)).0

  -- After any session of calls whose writes and syncs succeed, reopening the log's files gives back
  -- the acknowledged events, head, next sequence number and seal, and the acknowledged events are
  -- numbered from 1 without a gap, valid, and refer to earlier events only.
  pub session_recovers :
      (a : Appender) (path : String)
      → path ≢ ""
      → Reach json hash created a
      → (open_log json hash working path a.file a.seal_marker ≡ ok (record a { closed = false }))
        × Trusted json hash 1 a.events
        × (a.next_seq ≡ uint64 (length a.events + 1))
  session_recovers a path named r =
      let kept = Reach-IsKept json hash created-IsKept r in
      (
        open_log-IsKept json hash a path named kept,
        IsDurable-Trusted a kept.durable,
        kept.durable.numbered,
      )

  -- The log is the same, and sealed.
  pub record SameLog (a b : Appender) : Type 0 where
    pub file : b.file ≡ a.file
    pub events : b.events ≡ a.events
    pub sealed : b.sealed ≡ true

  Step-SameLog :
      {a b : Appender} → Step json hash a b → IsKept json hash a → a.sealed ≡ true → SameLog a b
  unfolding append seal close
  Step-SameLog (appended env a event e back h) k s =
      absurd (cc (s, (append-Appended json hash env a event h).encoded.unsealed))
  Step-SameLog (refused env a event message h) k s =
      rw (h, append) (record { file = refl; events = refl; sealed = s })
  Step-SameLog (sealed env a h) k s = record {
    file = ground arith;
    events = ground arith;
    sealed = ground arith;
  }
  Step-SameLog (closed synced file_closed a) k s = record {
    file = ground arith;
    events = ground arith;
    sealed = ground arith;
  }
  Step-SameLog (reopened a b path named h) k s =
      let same : record a { closed = false } ≡ b =
        cc (h, open_log-IsKept json hash a path named k) in
      subst (λ c. SameLog a c) same (record { file = refl; events = refl; sealed = s })

  -- Once sealed, a log never changes again, whatever calls and restarts follow.
  pub sealed_for_good :
      {a b : Appender}
      → IsKept json hash a
      → a.sealed ≡ true
      → Reach json hash a b
      → (b.file ≡ a.file) × (b.events ≡ a.events) × (b.sealed ≡ true)
  sealed_for_good k s here = (refl, refl, s)
  sealed_for_good k s (next r st) =
      let (f, e, t) = sealed_for_good k s r in
      let same = Step-SameLog st (Reach-IsKept json hash k r) t in
      (same.file ∙ f, same.events ∙ e, same.sealed)
