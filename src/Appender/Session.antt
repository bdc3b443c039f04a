-- ===== src/Appender/Session.antt =====
-- A log over its life: appends, seals, closes and reopenings in any order.
use harness_trajectory_bench.Prelude.{
  ◌<◌, String, ◌≡◌, sym, ◌∙◌, subst, ◌≢◌, Bool, true, false, Option, none, some, [], arith,
  if◌then◌else◌, ==_refl, nat_eq, string_eq, bool_eq, list_eq, pair_eq, Bytes, All, ok, err, pass,
  ==_eq-false,
}
use harness_trajectory_bench.Hex.{Sha256}
use harness_trajectory_bench.Hex.Laws.{hex_decode-hex_encode}
use harness_trajectory_bench.Events.Types.{TrackedEvent}
use harness_trajectory_bench.Events.Codec.{Codec}
use harness_trajectory_bench.Appender.Frames.{
  zero_head, split_lines, Recovered, recover_frames, validate_frames,
}
use harness_trajectory_bench.Appender.Lines.{start, recover_frames-whole, is_whole-recovered}
use harness_trajectory_bench.Appender.State.{
  Appender, AppendEnv, OpenEnv, SealEnv, marker_of, recover, inspect_marker, open_log, encode_frame,
  append, sync_directory, write_marker, check_marker, seal, close,
}
use harness_trajectory_bench.Appender.Durable.{ReadsBack, stamp, IsDurable}
use harness_trajectory_bench.Appender.Commit.{append-Appended, append-IsDurable}
use harness_trajectory_bench.Appender.Sound.{links_in_range, validate_lines-Grown}

abbrev pub working : OpenEnv
working = record {
  directory_made = true;
  log_opened = true;
  log_read = true;
  marker_read = true;
  sought = true;
}

module _ (json : Codec) (hash : Sha256) where
  -- What holds of an appender between two calls, if no write or sync has failed.
  pub record IsKept (a : Appender) : Type 0 where
    pub durable : IsDurable json hash a
    pub marked : a.seal_marker ≡ (if a.sealed then some (marker_of a.head) else none)

  head_in_range :
      (b : Bytes) (r : Recovered) → recover_frames json hash b ≡ ok r → All (λ x. x < 256) r.head
  head_in_range b r e =
      let whole = recover_frames-whole json hash b (is_whole-recovered json hash b e) in
      let grown = validate_lines-Grown json hash 1 start (split_lines [] b) (sym whole ∙ e) in
      rw grown.head (links_in_range hash zero_head (split_lines [] b) (omega arith))

  recover-IsDurable :
      (a : Appender) (marker : Option String)
      → IsDurable json hash a
      → recover json hash a.file marker
        ≡ ok (record a { seal_marker = marker; sealed = false; closed = false })
  unfolding recover validate_frames
  recover-IsDurable a marker d =
      rw (d.recovers, hex_decode-hex_encode a.head (head_in_range a.file _ d.recovers), d.numbered)

  -- Opening the files of a kept log gives back its acknowledged events, its head, its next sequence
  -- number and its seal.
  pub open_log-IsKept :
      (a : Appender) (path : String)
      → path ≢ ""
      → IsKept a
      → open_log json hash working path a.file a.seal_marker ≡ ok (record a { closed = false })
  unfolding open_log inspect_marker
  open_log-IsKept a path named k =
      rw (==_eq-false path "" named, recover-IsDurable a a.seal_marker k.durable)
        (ground (arith, ==_refl (marker_of a.head), k.marked))

  append-IsKept :
      (env : AppendEnv) (a : Appender) (event : TrackedEvent) {e : TrackedEvent}
      → IsKept a
      → ReadsBack json (stamp env a event)
      → (append json hash env a event).1 ≡ ok e
      → IsKept (append json hash env a event).0
  append-IsKept env a event k back h =
      let done = append-Appended json hash env a event h in
      record {
        durable = append-IsDurable json hash env a event k.durable back h;
        marked =
            ground (
              arith, k.marked, done.encoded.unsealed, done.committed.marker, done.committed.sealed,
            );
      }

  seal-IsKept :
      (env : SealEnv) (a : Appender) → IsKept a → (seal env a).1 ≡ pass → IsKept (seal env a).0
  unfolding seal write_marker check_marker sync_directory
  seal-IsKept env a k h = record {
    durable = record {
      recovers = ground (arith, k.durable.recovers);
      numbered = ground (arith, k.durable.numbered);
    };
    marked = ground (arith, k.marked);
  }

  close-IsKept :
      (synced file_closed : Bool) (a : Appender) → IsKept a → IsKept (close synced file_closed a).0
  unfolding close
  close-IsKept synced file_closed a k = record {
    durable = record {
      recovers = ground (arith, k.durable.recovers);
      numbered = ground (arith, k.durable.numbered);
    };
    marked = ground (arith, k.marked);
  }

  -- A call of a session whose writes and syncs all succeed, or that is refused before it writes.
  pub data Step : Appender → Appender → Type 0 where
    appended :
        (env : AppendEnv) (a : Appender) (event e : TrackedEvent)
        → ReadsBack json (stamp env a event)
        → (append json hash env a event).1 ≡ ok e
        → Step a (append json hash env a event).0
    refused :
        (env : AppendEnv) (a : Appender) (event : TrackedEvent) (message : String)
        → encode_frame json hash env.now a event ≡ err message
        → Step a (append json hash env a event).0
    sealed : (env : SealEnv) (a : Appender) → (seal env a).1 ≡ pass → Step a (seal env a).0
    closed : (synced file_closed : Bool) (a : Appender) → Step a (close synced file_closed a).0
    reopened :
        (a b : Appender) (path : String)
        → path ≢ ""
        → open_log json hash working path a.file a.seal_marker ≡ ok b
        → Step a b

  pub data Reach (a : Appender) : Appender → Type 0 where
    here : Reach a a
    next : {b c : Appender} → Reach a b → Step b c → Reach a c

  pub Step-IsKept : {a b : Appender} → Step a b → IsKept a → IsKept b
  unfolding append
  Step-IsKept (appended env a event e back h) k = append-IsKept env a event k back h
  Step-IsKept (refused env a event message h) k = rw (h, append) k
  Step-IsKept (sealed env a h) k = seal-IsKept env a k h
  Step-IsKept (closed synced file_closed a) k = close-IsKept synced file_closed a k
  Step-IsKept (reopened a b path named h) k =
      let same : record a { closed = false } ≡ b = cc (h, open_log-IsKept a path named k) in
      subst IsKept same (record {
        durable = record { recovers = k.durable.recovers; numbered = k.durable.numbered };
        marked = k.marked;
      })

  pub Reach-IsKept : {a b : Appender} → IsKept a → Reach a b → IsKept b
  Reach-IsKept k here = k
  Reach-IsKept k (next r s) = Step-IsKept s (Reach-IsKept k r)
