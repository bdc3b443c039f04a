-- ===== src/Appender/Sound.antt =====
-- What a log that `ValidateFrames` accepts holds, and how far its head binds it.
use mathlib.Core.List.{append-nil, append_assoc}
use harness_trajectory_bench.Prelude.{
  ℕ, suc, ◌+◌, ◌<◌, String, ◌≡◌, refl, sym, ap, ◌∙◌, ◌⊎◌, inl, inr, true, List, [], ◌∷◌, ◌++◌,
  arith, nat_eq, string_eq, bool_eq, list_eq, pair_eq, Bytes, length, append_inj,
  append-concat-injective, All, ok, pass, >>=-eq-ok, uint64,
}
use harness_trajectory_bench.Hex.{Sha256, hex_encode}
use harness_trajectory_bench.Hex.Collides.{Collides, sum_binds}
use harness_trajectory_bench.Hex.Laws.{hex_encode-injective}
use harness_trajectory_bench.Events.Types.{TrackedEvent}
use harness_trajectory_bench.Events.Codec.{Codec}
use harness_trajectory_bench.Events.Validate.{validate_event}
use harness_trajectory_bench.Appender.Frames.{
  newline, zero_head, validate_lineage, chain, split_lines, Recovered, validate_frame,
  validate_lines, recover_frames, validate_frames,
}
use harness_trajectory_bench.Appender.Lines.{
  start, is_whole, join_lines, join-split_lines, recover_frames-whole, is_whole-recovered,
}
use harness_trajectory_bench.Appender.Durable.{validate_frame-Adds}

module _ (json : Codec) (hash : Sha256) where
  -- Events numbered from `n` on with no gap, each valid and with earlier, distinct sources.
  abbrev pub Trusted : ℕ → List TrackedEvent → Type 0
  Trusted n [] = Unit
  Trusted n (e ∷ es) =
      (e.seq ≡ uint64 n)
      × (validate_event json hash e ≡ pass)
      × (validate_lineage e ≡ pass)
      × Trusted (n + 1) es

-- The head over a list of lines.
unfoldable pub links : Sha256 → Bytes → List Bytes → Bytes
links hash head [] = head
links hash head (p ∷ ps) = links hash (chain hash head (p ++ newline ∷ [])) ps

-- What is hashed in turn over a list of lines: the sum so far, the line and its end.
abbrev pub link_inputs : Sha256 → Bytes → List Bytes → List Bytes
link_inputs hash head [] = []
link_inputs hash head (p ∷ ps) =
    (head ++ (p ++ newline ∷ [])) ∷ link_inputs hash (hash.sum (head ++ (p ++ newline ∷ []))) ps

module _ (json : Codec) (hash : Sha256) where
  pub record Grown (n : ℕ) (r s : Recovered) (lines : List Bytes) : Type 0 where
    pub added : List TrackedEvent
    pub events : s.events ≡ r.events ++ added
    pub trusted : Trusted json hash n added
    pub head : s.head ≡ links hash r.head lines
    pub one_each : length added ≡ length lines

  pub validate_lines-Grown :
      (n : ℕ) (r : Recovered) (lines : List Bytes) {s : Recovered}
      → validate_lines json hash n r lines ≡ ok s
      → Grown n r s lines
  unfolding validate_lines links
  validate_lines-Grown n r [] {s} h =
      let same : r ≡ s = cc h in
      record {
        added = [];
        events = rw append-nil (cc same);
        trusted = tt;
        head = cc same;
        one_each = refl;
      }
  validate_lines-Grown n r (x ∷ lines) h =
      let (next, e, f) = >>=-eq-ok (validate_frame json hash n r x) _ h in
      let adds = validate_frame-Adds json hash n r x e in
      let grown = validate_lines-Grown (n + 1) next lines f in
      record {
        added = adds.event ∷ grown.added;
        events = grown.events ∙ ap (λ l. l ++ grown.added) adds.events ∙ append_assoc r.events _ _;
        trusted = (adds.in_place, adds.valid, adds.lineage, grown.trusted);
        head = grown.head ∙ ap (λ g. links hash g lines) adds.head;
        one_each = ap suc grown.one_each;
      }

  -- An accepted log is numbered from 1 without a gap, its events are valid with earlier and distinct
  -- sources, it has one event for each line, and its head is the chain over the exact lines.
  pub validate_frames_sound :
      (b : Bytes) {events : List TrackedEvent} {head : String}
      → validate_frames json hash b ≡ ok (events, head)
      → Trusted json hash 1 events
        × (length events ≡ length (split_lines [] b))
        × (head ≡ hex_encode (links hash zero_head (split_lines [] b)))
  unfolding validate_frames
  validate_frames_sound b {events} {head} h =
      let (r, e, f) = >>=-eq-ok (recover_frames json hash b) _ h in
      let whole = recover_frames-whole json hash b (is_whole-recovered json hash b e) in
      let grown = validate_lines-Grown 1 start (split_lines [] b) (sym whole ∙ e) in
      let same : events ≡ grown.added = cc (f, grown.events) in
      (rw same grown.trusted, rw same grown.one_each, cc (f, grown.head))

  size-links :
      (head : Bytes) (ps : List Bytes) → length head ≡ 32 → length (links hash head ps) ≡ 32
  unfolding links chain
  size-links head [] h = h
  size-links head (p ∷ ps) h = size-links (chain hash head (p ++ newline ∷ [])) ps (hash.size _)

module _ (hash : Sha256) where
  links_bind :
      (g h : Bytes) (ps qs : List Bytes)
      → length g ≡ length h
      → length ps ≡ length qs
      → links hash g ps ≡ links hash h qs
      → ((g ≡ h) × (ps ≡ qs)) ⊎ Collides hash (link_inputs hash g ps) (link_inputs hash h qs)
  unfolding links chain
  links_bind g h [] [] n m e = inl (e, refl)
  links_bind g h [] (q ∷ qs) n m e = absurd (omega arith)
  links_bind g h (p ∷ ps) [] n m e = absurd (omega arith)
  links_bind g h (p ∷ ps) (q ∷ qs) n m e = go (
      links_bind (chain hash g (p ++ newline ∷ [])) (chain hash h (q ++ newline ∷ [])) ps qs
        (hash.size _ ∙ sym (hash.size _)) (omega arith) e)
    where
      sum_of : Bytes → Bytes → Bytes
      sum_of head line = hash.sum (head ++ (line ++ newline ∷ []))

      go :
          ((sum_of g p ≡ sum_of h q) × (ps ≡ qs))
            ⊎ Collides hash (link_inputs hash (sum_of g p) ps) (link_inputs hash (sum_of h q) qs)
          → ((g ≡ h) × (p ∷ ps ≡ q ∷ qs))
            ⊎ Collides hash (link_inputs hash g (p ∷ ps)) (link_inputs hash h (q ∷ qs))
      go (inr c) = inr (inr c)
      go (inl (s, t)) = elim (sum_binds hash _ _ s) [
        | inr c ↦ inr (inl c)
        | inl u ↦
            let (v, w) = append_inj g h _ _ n u in
            inl (v, cc (append-concat-injective p q newline w, t))
      ]

  pub links_in_range :
      (head : Bytes) (ps : List Bytes)
      → All (λ x. x < 256) head
      → All (λ x. x < 256) (links hash head ps)
  unfolding links chain
  links_in_range head [] h = h
  links_in_range head (p ∷ ps) h =
      links_in_range (chain hash head (p ++ newline ∷ [])) ps
        (hash.in_range (head ++ (p ++ newline ∷ [])))

pub validate_frames-whole :
    (json : Codec) (hash : Sha256) (b : Bytes) {events : List TrackedEvent} {head : String}
    → validate_frames json hash b ≡ ok (events, head)
    → is_whole b ≡ true
unfolding validate_frames
validate_frames-whole json hash b h =
    let (r, e, f) = >>=-eq-ok (recover_frames json hash b) _ h in is_whole-recovered json hash b e

-- Two accepted logs with as many events and the same head are the same bytes, or else, at the same
-- place of both, the sum over the lines before and the line hashed with it differ and are hashed to
-- one sum.
pub validate_frames_bind :
    (json : Codec) (hash : Sha256) (a b : Bytes) {es fs : List TrackedEvent} {head : String}
    → length es ≡ length fs
    → validate_frames json hash a ≡ ok (es, head)
    → validate_frames json hash b ≡ ok (fs, head)
    → (a ≡ b)
      ⊎ Collides hash
          (link_inputs hash zero_head (split_lines [] a))
          (link_inputs hash zero_head (split_lines [] b))
validate_frames_bind json hash a b n p q =
    let (_, la, ha) = validate_frames_sound json hash a p in
    let (_, lb, hb) = validate_frames_sound json hash b q in
    elim (links_bind hash zero_head zero_head (split_lines [] a) (split_lines [] b) refl
      (omega (arith, n, la, lb))
      (hex_encode-injective _ _ (links_in_range hash zero_head _ (omega arith))
        (links_in_range hash zero_head _ (omega arith)) (sym ha ∙ hb))) [
          | inr c ↦ inr c
          | inl (_, same) ↦ inl (
              sym (join-split_lines a (validate_frames-whole json hash a p))
              ∙ ap join_lines same
              ∙ join-split_lines b (validate_frames-whole json hash b q))
        ]
