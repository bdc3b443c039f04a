-- ===== src/Evidence/Binding.antt =====
-- The head of a raw chain binds its records, unless the hash is broken.
use harness_trajectory_bench.Prelude.{
  Result, err, subst, ◌<◌, String, ◌≡◌, sym, ap, ◌∙◌, ◌⊎◌, inl, inr, ◌||◌, not, List, [], ◌∷◌, ◌++◌,
  arith, ◌!=◌, nat_eq, string_eq, bool_eq, list_eq, pair_eq, Bytes, length, append_inj, All, ok,
  reject, >>=-eq-ok, >>-eq-ok, ok-injective,
}
use harness_trajectory_bench.Hex.{Sha256, hex_encode}
use harness_trajectory_bench.Hex.Collides.{Collides, sum_binds}
use harness_trajectory_bench.Hex.Laws.{hex_decode-hex_encode}
use harness_trajectory_bench.Evidence.Raw.{
  RawRecord, frame, valid_hash, validate_record, extend_chain, breaks_source, validate_links,
  validate_chain,
}
use harness_trajectory_bench.Evidence.Framing.{InRange, SameFields, frame-injective}
use harness_trajectory_bench.Evidence.Chain.{decoded, length-decoded, extend_chain-ok}

-- Record by record, the same framed fields.
abbrev pub SameRecords : List RawRecord → List RawRecord → Type 0
SameRecords [] [] = Unit
SameRecords (r ∷ rs) (s ∷ ss) = SameFields r s × SameRecords rs ss
SameRecords _ _ = ⊥

decoded-hex_encode : (b : Bytes) → All (λ x. x < 256) b → decoded (hex_encode b) ≡ b
decoded-hex_encode b h = rw (hex_decode-hex_encode b h)

abbrev bytes_in : Result Bytes → Bytes
bytes_in (ok f) = f
bytes_in (err e) = []

-- What is hashed in turn over a chain: the sum so far, in bytes, and the frame of the record.
abbrev pub chain_inputs : Sha256 → Bytes → List RawRecord → List Bytes
chain_inputs hash head [] = []
chain_inputs hash head (r ∷ rs) =
    (head ++ bytes_in (frame r)) ∷ chain_inputs hash (hash.sum (head ++ bytes_in (frame r))) rs

module _ (hash : Sha256) where
  -- One link: the frame of the record, and the sum that the next link begins with.
  link-ok :
      (p : String) (r : RawRecord) {n : String}
      → extend_chain hash p r ≡ ok n
      → (f : Bytes) × (frame r ≡ ok f)
        × (length (decoded p) ≡ 32)
        × (decoded n ≡ hash.sum (decoded p ++ f))
  link-ok p r e =
      let (f, ef, vp, nf) = extend_chain-ok hash p r e in
      (
        f,
        ef,
        length-decoded p vp,
        ap decoded nf ∙ decoded-hex_encode _ (hash.in_range (decoded p ++ f)),
      )

  -- Two chains of which all but the first links are bound to their records.
  abbrev Bound : String → String → List RawRecord → List RawRecord → Type 0
  Bound a b rs ss =
      ((decoded a ≡ decoded b) × SameRecords rs ss)
      ⊎ Collides hash (chain_inputs hash (decoded a) rs) (chain_inputs hash (decoded b) ss)

  Bound-cons :
      (p q u v : String) (r s : RawRecord) (rs ss : List RawRecord)
      → InRange r
      → InRange s
      → extend_chain hash p r ≡ ok u
      → extend_chain hash q s ≡ ok v
      → Bound u v rs ss
      → Bound p q (r ∷ rs) (s ∷ ss)
  Bound-cons p q u v r s rs ss hr hs eu ev bound =
      let (f, ef, sp, nf) = link-ok p r eu in
      let (g, eg, sq, ng) = link-ok q s ev in go f g ef eg sp sq nf ng bound
    where
      go :
          (f g : Bytes)
          → frame r ≡ ok f
          → frame s ≡ ok g
          → length (decoded p) ≡ 32
          → length (decoded q) ≡ 32
          → decoded u ≡ hash.sum (decoded p ++ f)
          → decoded v ≡ hash.sum (decoded q ++ g)
          → Bound u v rs ss
          → Bound p q (r ∷ rs) (s ∷ ss)
      go f g ef eg sp sq nf ng (inr c) =
          rw (ef, eg)
            (inr (
              inr (
                subst
                  (λ (t : Bytes × Bytes).
                    Collides hash (chain_inputs hash t.0 rs) (chain_inputs hash t.1 ss))
                  (ap (λ t. (t, decoded v)) nf ∙ ap (λ t. (hash.sum (decoded p ++ f), t)) ng) c)))
      go f g ef eg sp sq nf ng (inl (heads, rest)) =
          elim (sum_binds hash (decoded p ++ f) (decoded q ++ g) (sym nf ∙ heads ∙ ng)) [
            | inr c ↦ rw (ef, eg) (inr (inl c))
            | inl e ↦
                let (same, frames) = append_inj (decoded p) (decoded q) f g (sp ∙ sym sq) e in
                inl (same, (frame-injective r s hr hs ef (eg ∙ ap ok (sym frames)), rest))
          ]

  links_bind :
      (o o' p p' : RawRecord) (a b : String) (rs ss : List RawRecord) {head : String}
      → All InRange rs
      → All InRange ss
      → length rs ≡ length ss
      → validate_links hash o p a rs ≡ ok head
      → validate_links hash o' p' b ss ≡ ok head
      → Bound a b rs ss
  unfolding validate_links
  links_bind o o' p p' a b [] [] hr hs n x y = inl (ap decoded (ok-injective (x ∙ sym y)), tt)
  links_bind o o' p p' a b [] (s ∷ ss) hr hs n x y = absurd (omega arith)
  links_bind o o' p p' a b (r ∷ rs) [] hr hs n x y = absurd (omega arith)
  links_bind o o' p p' a b (r ∷ rs) (s ∷ ss) hr hs n x y =
      let (_, x1) = >>-eq-ok (validate_record hash r) _ x in
      let (_, x2) = >>-eq-ok (reject (breaks_source o p r) _) _ x1 in
      let (_, x3) = >>-eq-ok (reject (r.previous_record_sha256 != p.record_sha256) _) _ x2 in
      let (u, ex, x4) = >>=-eq-ok (extend_chain hash a r) _ x3 in
      let (_, y1) = >>-eq-ok (validate_record hash s) _ y in
      let (_, y2) = >>-eq-ok (reject (breaks_source o' p' s) _) _ y1 in
      let (_, y3) = >>-eq-ok (reject (s.previous_record_sha256 != p'.record_sha256) _) _ y2 in
      let (v, ey, y4) = >>=-eq-ok (extend_chain hash b s) _ y3 in
      Bound-cons a b u v r s rs ss hr.0 hs.0 ex ey
        (links_bind o o' r s u v rs ss hr.1 hs.1 (omega arith) x4 y4)

  -- The rounds of `ValidateChain` behind the first record, with that record's link.
  chain-links :
      (r : RawRecord) (rs : List RawRecord) (seed : String) {head : String}
      → validate_chain hash (r ∷ rs) seed ≡ ok head
      → (next : String) × (extend_chain hash seed r ≡ ok next)
        × (validate_links hash r r next rs ≡ ok head)
  unfolding validate_chain
  chain-links r rs seed h =
      let (_, h0) = >>-eq-ok (reject (not (valid_hash seed)) _) _ h in
      let (_, h1) = >>-eq-ok (validate_record hash r) _ h0 in
      let (_, h2) =
        >>-eq-ok (reject ((r.source_seq != 1) || (r.previous_record_sha256 != "")) _) _ h1 in
      >>=-eq-ok (extend_chain hash seed r) _ h2

  -- Two accepted chains of the same length with the same head, with integer fields in the ranges of
  -- their Go types and wall times that an int64 of nanoseconds holds, agree, record by record, on
  -- every framed field (of the wall time, the instant without the zone), or else, at the same place of both, the sum so far and the frame hashed with it
  -- differ and are hashed to one sum.
  pub validate_chain_binds :
      (rs ss : List RawRecord) (seed other : String) {head : String}
      → All InRange rs
      → All InRange ss
      → length rs ≡ length ss
      → validate_chain hash rs seed ≡ ok head
      → validate_chain hash ss other ≡ ok head
      → SameRecords rs ss
        ⊎ Collides hash (chain_inputs hash (decoded seed) rs) (chain_inputs hash (decoded other) ss)
  validate_chain_binds [] [] seed other hr hs n x y = inl tt
  validate_chain_binds [] (s ∷ ss) seed other hr hs n x y = absurd (omega arith)
  validate_chain_binds (r ∷ rs) [] seed other hr hs n x y = absurd (omega arith)
  validate_chain_binds (r ∷ rs) (s ∷ ss) seed other hr hs n x y =
      let (u, ex, x4) = chain-links r rs seed x in
      let (v, ey, y4) = chain-links s ss other y in
      elim (Bound-cons seed other u v r s rs ss hr.0 hs.0 ex ey
        (links_bind r s r s u v rs ss hr.1 hs.1 (omega arith) x4 y4)) [
          | inl (heads, same) ↦ inl same
          | inr c ↦ inr c
        ]
