-- ===== src/Appender/Durable.antt =====
-- The acknowledged state of an appender is what its file recovers to.
use harness_trajectory_bench.Prelude.{
  ℕ, ◌+◌, ◌≡◌, sym, ap, ◌∙◌, false, some, List, [], ◌∷◌, ◌++◌, arith, ◌!=◌, ==_iff, nat_eq,
  string_eq, bool_eq, list_eq, pair_eq, Bytes, length, is_nil, length-append, ok, pass, reject,
  or_fail, >>=-eq-ok, >>-eq-ok, reject-eq-pass, or_fail-eq-ok, !=-eq-false, uint64,
}
use harness_trajectory_bench.Hex.{Sha256}
use harness_trajectory_bench.Events.Types.{TrackedEvent}
use harness_trajectory_bench.Events.Codec.{Codec}
use harness_trajectory_bench.Events.Validate.{validate_event}
use harness_trajectory_bench.Appender.Frames.{
  newline, validate_lineage, chain, split_lines, Recovered, validate_frame, validate_lines,
  recover_frames,
}
use harness_trajectory_bench.Appender.Lines.{
  IsLine, is_whole-append, split_lines-whole, validate_lines-append, start, recover_frames-whole,
  is_whole-recovered,
}
use harness_trajectory_bench.Appender.State.{Appender, AppendEnv}

-- `encoding/json` prints an event on one line, and reads its own print back. An event whose `data`
-- and `surfaceOp` are compact JSON has this property.
pub record ReadsBack (json : Codec) (event : TrackedEvent) : Type 0 where
  pub reads : (p : Bytes) → json.marshal event ≡ some p → json.event p ≡ some event
  pub one_line : (p : Bytes) → json.marshal event ≡ some p → IsLine p
  pub not_empty : (p : Bytes) → json.marshal event ≡ some p → is_nil p ≡ false

-- The event that `Append` stamps.
abbrev pub stamp : AppendEnv → Appender → TrackedEvent → TrackedEvent
stamp env a event = record event { seq = a.next_seq; time = env.now }

module _ (json : Codec) (hash : Sha256) where
  pub record IsDurable (a : Appender) : Type 0 where
    pub recovers :
        recover_frames json hash a.file ≡ ok (record { events = a.events; head = a.head })
    pub numbered : a.next_seq ≡ uint64 (length a.events + 1)

  -- A frame that passes adds its event and its link of the chain.
  pub record Adds (r s : Recovered) (frame_number : ℕ) (payload : Bytes) : Type 0 where
    pub event : TrackedEvent
    pub decoded : json.event payload ≡ some event
    pub in_place : event.seq ≡ uint64 frame_number
    pub valid : validate_event json hash event ≡ pass
    pub lineage : validate_lineage event ≡ pass
    pub events : s.events ≡ r.events ++ event ∷ []
    pub head : s.head ≡ chain hash r.head (payload ++ newline ∷ [])

  pub validate_frame-Adds :
      (n : ℕ) (r : Recovered) (payload : Bytes) {s : Recovered}
      → validate_frame json hash n r payload ≡ ok s
      → Adds r s n payload
  unfolding validate_frame
  validate_frame-Adds n r payload h =
      let (p0, h0) = >>-eq-ok (reject (is_nil payload) "frame is empty") _ h in
      let (event, p1, h1) = >>=-eq-ok (or_fail (json.event payload) "frame is invalid JSON") _ h0 in
      let (p2, h2) = >>-eq-ok (reject (event.seq != uint64 n) "frame has another seq") _ h1 in
      let (p3, h3) = >>-eq-ok (validate_event json hash event) _ h2 in
      let (p4, h4) = >>-eq-ok (validate_lineage event) _ h3 in
      record {
        event = event;
        decoded = or_fail-eq-ok (json.event payload) "frame is invalid JSON" p1;
        in_place = !=-eq-false event.seq (uint64 n) (reject-eq-pass _ "frame has another seq" p2);
        valid = p3;
        lineage = p4;
        events = cc h4;
        head = cc h4;
      }

  pub validate_frame-ok :
      (n : ℕ) (r : Recovered) (payload : Bytes) (event : TrackedEvent)
      → is_nil payload ≡ false
      → json.event payload ≡ some event
      → event.seq ≡ uint64 n
      → validate_event json hash event ≡ pass
      → validate_lineage event ≡ pass
      → validate_frame json hash n r payload
        ≡ ok (record {
          events = r.events ++ event ∷ [];
          head = chain hash r.head (payload ++ newline ∷ []);
        })
  unfolding validate_frame
  validate_frame-ok n r payload event e d s v l = rw (e, d, (==_iff event.seq (uint64 n)).1 s, v, l)

  pub length-validate_lines :
      (n : ℕ) (r : Recovered) (lines : List Bytes) {s : Recovered}
      → validate_lines json hash n r lines ≡ ok s
      → length s.events ≡ length r.events + length lines
  unfolding validate_lines
  length-validate_lines n r [] {s} h =
      let same : r ≡ s = cc h in omega (arith, ap (λ (x : Recovered). length x.events) same)
  length-validate_lines n r (x ∷ lines) h =
      let (next, e, f) = >>=-eq-ok (validate_frame json hash n r x) _ h in
      let adds = validate_frame-Adds n r x e in
      omega (
        arith,
        length-validate_lines (n + 1) next lines f,
        ap length adds.events,
        length-append r.events (adds.event ∷ []),
      )

  pub length-split_lines :
      (a : Appender) → IsDurable a → length (split_lines [] a.file) ≡ length a.events
  length-split_lines a d = omega (
    arith,
    length-validate_lines 1 start (split_lines [] a.file) (
        sym (recover_frames-whole json hash a.file (is_whole-recovered json hash a.file d.recovers))
        ∙ d.recovers),
  )

  -- One more line behind a durable log is checked as the next frame.
  pub recover_frames-line :
      (a : Appender) (payload : Bytes)
      → IsDurable a
      → IsLine payload
      → recover_frames json hash (a.file ++ (payload ++ newline ∷ []))
        ≡ validate_frame json hash
            (length a.events + 1)
            (record { events = a.events; head = a.head })
            payload
  recover_frames-line a payload d line =
      let whole = is_whole-recovered json hash a.file d.recovers in
      let old = sym (recover_frames-whole json hash a.file whole) ∙ d.recovers in
      recover_frames-whole json hash _ (is_whole-append a.file payload)
      ∙ ap (validate_lines json hash 1 start) (split_lines-whole a.file payload whole line)
      ∙ validate_lines-append json hash 1 start _ (split_lines [] a.file) payload old
      ∙ ap (λ k. validate_frame json hash k (record { events = a.events; head = a.head }) payload)
          (omega (arith, length-split_lines a d))
