-- ===== src/Appender/Failure.antt =====
-- A frame that was written but not synced stays in the log.
use mathlib.Core.List.{append-nil}
use harness_trajectory_bench.Prelude.{
  ℕ, ◌+◌, String, ◌≡◌, refl, sym, ap, ◌∙◌, ◌≢◌, inl, inr, false, some, [], ◌∷◌, ◌++◌, arith, nat_eq,
  string_eq, bool_eq, list_eq, pair_eq, Bytes, length, is_nil, length-append, ok, err, pass,
  Result-cases, ==_eq-false, ℤ, uint64,
}
use harness_trajectory_bench.Hex.{Sha256}
use harness_trajectory_bench.Events.Types.{TrackedEvent}
use harness_trajectory_bench.Events.Codec.{Codec}
use harness_trajectory_bench.Appender.Frames.{
  newline, chain, Recovered, validate_frame, recover_frames,
}
use harness_trajectory_bench.Appender.State.{
  Appender, AppendEnv, write_all, encode_frame, commit, append,
}
use harness_trajectory_bench.Appender.Writes.{write_all-pass}
use harness_trajectory_bench.Appender.Durable.{ReadsBack, stamp, IsDurable, recover_frames-line}
use harness_trajectory_bench.Appender.Commit.{
  Encoded, encode_frame-Encoded, append-Appended, frame-IsDurable, commit-Refused,
}

module _ (json : Codec) (hash : Sha256) where
  -- An `Append` that fails changes the log file only, by part of a frame at most.
  pub append_failure :
      (env : AppendEnv) (a : Appender) (event : TrackedEvent) {message : String}
      → (append json hash env a event).1 ≡ err message
      → (part : Bytes) × ((append json hash env a event).0 ≡ record a { file = a.file ++ part })
  append_failure env a event {message} h =
      elim (Result-cases (encode_frame json hash env.now a event)) [
        | inl (framed, f) ↦
            let same : append json hash env a event ≡ commit json hash env a framed =
              unfold append in rw (f, append) in
            let torn = commit-Refused json hash env a framed (rw same at h) in
            (torn.part, rw same torn.state)
        | inr (m, f) ↦
            let same : append json hash env a event ≡ (a, err m) =
              unfold append in rw (f, append) in
            ([], rw (same, append-nil a.file))
      ]

  frame_misnumbered :
      (n : ℕ) (r : Recovered) (payload : Bytes) (event : TrackedEvent)
      → is_nil payload ≡ false
      → json.event payload ≡ some event
      → event.seq ≢ uint64 n
      → validate_frame json hash n r payload ≡ err "frame has another seq"
  unfolding validate_frame
  frame_misnumbered n r payload event e d s = rw (e, d, ==_eq-false event.seq (uint64 n) s)

  -- The state in which the frame of a failed sync counts as acknowledged.
  abbrev as_if_synced : Appender → TrackedEvent × Bytes → Appender
  as_if_synced a (e, frame) = record a {
    file = a.file ++ frame;
    events = a.events ++ e ∷ [];
    head = chain hash a.head frame;
    next_seq = uint64 (a.next_seq + 1);
  }

  as_if_synced-IsDurable :
      (a : Appender) (now : ℤ) (event : TrackedEvent) (framed : TrackedEvent × Bytes)
      → IsDurable json hash a
      → Encoded json hash now a event framed
      → ReadsBack json framed.0
      → IsDurable json hash (as_if_synced a framed)
  as_if_synced-IsDurable a now event framed d enc back =
      frame-IsDurable json hash a (as_if_synced a framed) now event framed {e = framed.0} d enc back
        (record {
          returned = refl;
          file = refl;
          events = refl;
          head = refl;
          next_seq = refl;
          marker = refl;
          sealed = refl;
          closed = refl;
        })

  unsynced-file :
      (env : AppendEnv) (a : Appender) (event : TrackedEvent) (framed : TrackedEvent × Bytes)
      → encode_frame json hash env.now a event ≡ ok framed
      → (write_all env.answers framed.1).1 ≡ pass
      → env.synced ≡ false
      → (append json hash env a event).0 ≡ record a { file = a.file ++ framed.1 }
  unfolding append commit
  unsynced-file env a event framed e w s =
      rw (e, append) (ground (arith, write_all-pass env.answers framed.1))

  -- Once a frame was written whole but not synced, the next `Append` that is acknowledged makes the
  -- log unreadable: both frames carry the same sequence number.
  pub sync_failure_poisons :
      (first second : AppendEnv) (a : Appender) (event other : TrackedEvent)
      (framed : TrackedEvent × Bytes) {e : TrackedEvent}
      → IsDurable json hash a
      → ReadsBack json (stamp first a event)
      → ReadsBack json (stamp second a other)
      → encode_frame json hash first.now a event ≡ ok framed
      → (write_all first.answers framed.1).1 ≡ pass
      → first.synced ≡ false
      → (append json hash second (append json hash first a event).0 other).1 ≡ ok e
      → recover_frames json hash
          (append json hash second (append json hash first a event).0 other).0.file
        ≡ err "frame has another seq"
  sync_failure_poisons first second a event other framed d back1 back2 enc w s h =
      let b = (append json hash first a event).0 in
      let same = unsynced-file first a event framed enc w s in
      let enc1 = encode_frame-Encoded json hash first.now a event enc in
      let g = as_if_synced a framed in
      let dg = as_if_synced-IsDurable a first.now event framed d enc1 (rw enc1.stamped back1) in
      let done = append-Appended json hash second b other h in
      let payload = done.encoded.payload in
      let stamped : done.framed.0 ≡ stamp second a other =
        done.encoded.stamped
        ∙ ap (λ (x : Appender). record other { seq = x.next_seq; time = second.now }) same in
      let printed : json.marshal (stamp second a other) ≡ some payload =
        ap json.marshal (sym stamped) ∙ done.encoded.printed in
      let file : (append json hash second b other).0.file ≡ g.file ++ (payload ++ newline ∷ []) =
        cc (done.committed.file, done.encoded.framing, ap (λ (x : Appender). x.file) same) in
      ap (recover_frames json hash) file
      ∙ recover_frames-line json hash g payload dg (back2.one_line payload printed)
      ∙ frame_misnumbered (length g.events + 1) (record { events = g.events; head = g.head })
          payload (stamp second a other) (back2.not_empty payload printed)
          (back2.reads payload printed)
          (omega (arith, d.numbered, length-append a.events (framed.0 ∷ [])))
