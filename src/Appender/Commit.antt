-- ===== src/Appender/Commit.antt =====
-- What one `Append` does to the log and to the acknowledged state.
use harness_trajectory_bench.Prelude.{
  ◌+◌, String, ◌≡◌, ap, ◌∙◌, inl, inr, false, not, some, [], ◌∷◌, ◌++◌, arith, ◌!=◌, nat_eq,
  string_eq, bool_eq, list_eq, pair_eq, Bytes, length, length-append, ok, err, pass, reject,
  or_fail, Result-cases, >>=-eq-ok, >>-eq-ok, reject-eq-pass, or_fail-eq-ok, !=-eq-false, ℤ, uint64,
}
use harness_trajectory_bench.Hex.{Sha256}
use harness_trajectory_bench.Events.Types.{TrackedEvent}
use harness_trajectory_bench.Events.Codec.{Codec}
use harness_trajectory_bench.Events.Validate.{validate_event}
use harness_trajectory_bench.Appender.Frames.{newline, validate_lineage, chain, recover_frames}
use harness_trajectory_bench.Appender.State.{
  Appender, AppendEnv, is_zero, write_all, encode_frame, commit, append,
}
use harness_trajectory_bench.Appender.Writes.{write_all-pass, write_all-prefix}
use harness_trajectory_bench.Appender.Durable.{
  ReadsBack, stamp, IsDurable, validate_frame-ok, recover_frames-line,
}

module _ (json : Codec) (hash : Sha256) where
  -- What `Append` has established before it writes.
  pub record Encoded (now : ℤ) (a : Appender) (event : TrackedEvent) (framed : TrackedEvent × Bytes)
      : Type 0 where
    pub is_open : a.closed ≡ false
    pub unsealed : a.sealed ≡ false
    pub unnumbered : event.seq ≡ 0
    pub stamped : framed.0 ≡ record event { seq = a.next_seq; time = now }
    pub valid : validate_event json hash framed.0 ≡ pass
    pub lineage : validate_lineage framed.0 ≡ pass
    pub payload : Bytes
    pub printed : json.marshal framed.0 ≡ some payload
    pub framing : framed.1 ≡ payload ++ newline ∷ []

  pub encode_frame-Encoded :
      (now : ℤ) (a : Appender) (event : TrackedEvent) {framed : TrackedEvent × Bytes}
      → encode_frame json hash now a event ≡ ok framed
      → Encoded now a event framed
  unfolding encode_frame
  encode_frame-Encoded now a event {framed} h =
      let (p0, h0) = >>-eq-ok (reject a.closed _) _ h in
      let (p1, h1) = >>-eq-ok (reject a.sealed _) _ h0 in
      let (p2, h2) = >>-eq-ok (reject (event.seq != 0) _) _ h1 in
      let (p3, h3) = >>-eq-ok (reject (not (is_zero event.time)) _) _ h2 in
      let stamped : TrackedEvent = record event { seq = a.next_seq; time = now } in
      let (p4, h4) = >>-eq-ok (validate_event json hash stamped) _ h3 in
      let (p5, h5) = >>-eq-ok (validate_lineage stamped) _ h4 in
      let (payload, p6, h6) = >>=-eq-ok (or_fail (json.marshal stamped) "encode event") _ h5 in
      let same : framed.0 ≡ stamped = cc h6 in
      record {
        is_open = reject-eq-pass a.closed _ p0;
        unsealed = reject-eq-pass a.sealed _ p1;
        unnumbered = !=-eq-false event.seq 0 (reject-eq-pass _ _ p2);
        stamped = same;
        valid = rw same p4;
        lineage = rw same p5;
        payload = payload;
        printed = rw same (or_fail-eq-ok (json.marshal stamped) "encode event" p6);
        framing = cc h6;
      }

  -- What an acknowledged commit did.
  pub record Committed (a b : Appender) (framed : TrackedEvent × Bytes) (e : TrackedEvent)
      : Type 0 where
    pub returned : e ≡ framed.0
    pub file : b.file ≡ a.file ++ framed.1
    pub events : b.events ≡ a.events ++ framed.0 ∷ []
    pub head : b.head ≡ chain hash a.head framed.1
    pub next_seq : b.next_seq ≡ uint64 (a.next_seq + 1)
    pub marker : b.seal_marker ≡ a.seal_marker
    pub sealed : b.sealed ≡ a.sealed
    pub closed : b.closed ≡ a.closed

  pub commit-Committed :
      (env : AppendEnv) (a : Appender) (framed : TrackedEvent × Bytes) {e : TrackedEvent}
      → (commit json hash env a framed).1 ≡ ok e
      → Committed a (commit json hash env a framed).0 framed e
  unfolding commit
  commit-Committed env a (stamped, frame) h = ground (arith, write_all-pass env.answers frame)

  -- What a commit that failed left behind: part of the frame in the file, and nothing else.
  pub record Refused (a b : Appender) (frame : Bytes) : Type 0 where
    pub part : Bytes
    pub rest : Bytes
    pub split : part ++ rest ≡ frame
    pub file : b.file ≡ a.file ++ part
    pub state : b ≡ record a { file = a.file ++ part }

  pub commit-Refused :
      (env : AppendEnv) (a : Appender) (framed : TrackedEvent × Bytes) {m : String}
      → (commit json hash env a framed).1 ≡ err m
      → Refused a (commit json hash env a framed).0 framed.1
  unfolding commit
  commit-Refused env a (stamped, frame) h =
      let (rest, split) = write_all-prefix env.answers frame in
      record {
        part = (write_all env.answers frame).0;
        rest = rest;
        split = split;
        file = ground arith;
        state = ground arith;
      }

  -- An acknowledged `Append`, taken apart.
  pub record Appended (env : AppendEnv) (a b : Appender) (event e : TrackedEvent) : Type 0 where
    pub framed : TrackedEvent × Bytes
    pub encoded : Encoded env.now a event framed
    pub committed : Committed a b framed e

  pub append-Appended :
      (env : AppendEnv) (a : Appender) (event : TrackedEvent) {e : TrackedEvent}
      → (append json hash env a event).1 ≡ ok e
      → Appended env a (append json hash env a event).0 event e
  append-Appended env a event {e} h = elim (Result-cases (encode_frame json hash env.now a event)) [
    | inl (framed, f) ↦
        let same : append json hash env a event ≡ commit json hash env a framed =
          unfold append in rw (f, append) in
        record {
          framed = framed;
          encoded = encode_frame-Encoded env.now a event f;
          committed = rw same (commit-Committed env a framed (rw same at h));
        }
    | inr (m, f) ↦
        let same : append json hash env a event ≡ (a, err m) = unfold append in rw (f, append) in
        absurd (cc (h, same))
  ]

  pub frame-recovers :
      (a : Appender) (now : ℤ) (event : TrackedEvent) (framed : TrackedEvent × Bytes)
      → IsDurable json hash a
      → Encoded now a event framed
      → ReadsBack json framed.0
      → recover_frames json hash (a.file ++ framed.1)
        ≡ ok (record { events = a.events ++ framed.0 ∷ []; head = chain hash a.head framed.1 })
  frame-recovers a now event framed d enc back =
      let payload = enc.payload in
      rw enc.framing (
        recover_frames-line json hash a payload d (back.one_line payload enc.printed)
        ∙ validate_frame-ok json hash (length a.events + 1)
            (record { events = a.events; head = a.head }) payload framed.0
            (back.not_empty payload enc.printed) (back.reads payload enc.printed)
            (ap (λ (x : TrackedEvent). x.seq) enc.stamped ∙ d.numbered) enc.valid enc.lineage)

  pub frame-IsDurable :
      (a b : Appender) (now : ℤ) (event : TrackedEvent) (framed : TrackedEvent × Bytes)
      {e : TrackedEvent}
      → IsDurable json hash a
      → Encoded now a event framed
      → ReadsBack json framed.0
      → Committed a b framed e
      → IsDurable json hash b
  frame-IsDurable a b now event framed d enc back done = record {
    recovers =
        rw (done.file, done.events, done.head) (frame-recovers a now event framed d enc back);
    numbered = omega (
      arith,
      done.next_seq,
      d.numbered,
      ap length done.events,
      length-append a.events (framed.0 ∷ []),
    );
  }

  -- The state after an acknowledged append is again what its file recovers to.
  pub append-IsDurable :
      (env : AppendEnv) (a : Appender) (event : TrackedEvent) {e : TrackedEvent}
      → IsDurable json hash a
      → ReadsBack json (stamp env a event)
      → (append json hash env a event).1 ≡ ok e
      → IsDurable json hash (append json hash env a event).0
  append-IsDurable env a event d back h =
      let done = append-Appended env a event h in
      frame-IsDurable a (append json hash env a event).0 env.now event done.framed d done.encoded
        (rw done.encoded.stamped back) done.committed
