-- ===== src/Plaintext/Streams.antt =====
-- What a stream of the assembler holds: the accepted records, joined.
use mathlib.Core.List.{append-nil, append_assoc}
use harness_trajectory_bench.Prelude.{
  ℕ, ◌+◌, ◌≡◌, refl, sym, ap, ◌∙◌, subst, ◌⊎◌, inl, inr, Bool, false, ◌||◌, none, some, List, [],
  ◌∷◌, ◌++◌, arith, ◌!=◌, nat_eq, string_eq, bool_eq, list_eq, pair_eq, Option-cases, Bytes, length,
  length-append, Result, ok, err, ◌>>◌, reject, >>=-eq-ok, >>-eq-ok, reject-eq-pass, ok-injective,
  !=-eq-false, uint64,
}
use harness_trajectory_bench.Hex.{Sha256, hex_encode}
use harness_trajectory_bench.Events.Observed.{NetworkPlaintext}
use harness_trajectory_bench.Events.Codec.{Codec}
use harness_trajectory_bench.Plaintext.Assembler.{
  StreamState, ArtifactResolver, payload_bytes, advance, extend, fresh,
}

abbrev pub bytes_or_empty : Result Bytes → Bytes
bytes_or_empty (ok b) = b
bytes_or_empty (err e) = []

abbrev pub any_end : List NetworkPlaintext → Bool
any_end [] = false
any_end (c ∷ cs) = c.end_of_stream || any_end cs

module _ (json : Codec) (resolver : ArtifactResolver) (hash : Sha256) where
  abbrev pub content : NetworkPlaintext → Bytes
  content c = bytes_or_empty (payload_bytes json resolver c.payload)

  -- The contents of the records, one behind the other.
  abbrev pub joined : List NetworkPlaintext → Bytes
  joined [] = []
  joined (c ∷ cs) = content c ++ joined cs

  -- The bytes of the records that have an offset.
  abbrev pub covered : List NetworkPlaintext → ℕ
  covered [] = 0
  covered (c ∷ cs) = (elim c.offset [ none ↦ 0 | some o ↦ length (content c) ]) + covered cs

  -- A record that may stand behind the records `before` of its stream: its number is the next one,
  -- its offset the number of bytes so far, its bytes have the length and the digest that it names,
  -- and no record before it ends the stream.
  pub record Continues (before : List NetworkPlaintext) (c : NetworkPlaintext) : Type 0 where
    pub sequence : c.sequence ≡ uint64 (length before + 1)
    pub offset : (c.offset ≡ none) ⊎ (c.offset ≡ some (uint64 (covered before)))
    pub available : payload_bytes json resolver c.payload ≡ ok (content c)
    pub size : uint64 (length (content c)) ≡ c.payload.length
    pub digest : hex_encode (hash.sum (content c)) ≡ c.payload.sha256
    pub open_before : any_end before ≡ false

  -- Each record of `cs` continues those before it.
  abbrev pub Chunks : List NetworkPlaintext → List NetworkPlaintext → Type 0
  Chunks before [] = Unit
  Chunks before (c ∷ cs) = Continues before c × Chunks (before ++ (c ∷ [])) cs

  pub record IsStream (cs : List NetworkPlaintext) (s : StreamState) : Type 0 where
    pub chunks : Chunks [] cs
    pub bytes : s.bytes ≡ joined cs
    pub next_sequence : s.next_sequence ≡ uint64 (length cs + 1)
    pub next_offset : s.next_offset ≡ uint64 (covered cs)
    pub closed : s.closed ≡ any_end cs

  pub fresh-IsStream : IsStream [] fresh
  fresh-IsStream = record {
    chunks = tt;
    bytes = refl;
    next_sequence = refl;
    next_offset = refl;
    closed = refl;
  }

  joined-append :
      (xs : List NetworkPlaintext) (c : NetworkPlaintext)
      → joined (xs ++ (c ∷ [])) ≡ joined xs ++ content c
  joined-append [] c = append-nil (content c)
  joined-append (x ∷ xs) c =
      ap (λ t. content x ++ t) (joined-append xs c)
      ∙ sym (append_assoc (content x) (joined xs) (content c))

  covered-append :
      (xs : List NetworkPlaintext) (c : NetworkPlaintext)
      → covered (xs ++ (c ∷ [])) ≡ covered xs + covered (c ∷ [])
  covered-append [] c = omega arith
  covered-append (x ∷ xs) c = omega (arith, covered-append xs c)

  any_end-append :
      (xs : List NetworkPlaintext) (c : NetworkPlaintext)
      → any_end (xs ++ (c ∷ [])) ≡ (c.end_of_stream || any_end xs)
  any_end-append [] c = ground arith
  any_end-append (x ∷ xs) c = ground (arith, any_end-append xs c)

  Chunks-append :
      (before cs : List NetworkPlaintext) (c : NetworkPlaintext)
      → Chunks before cs
      → Continues (before ++ cs) c
      → Chunks before (cs ++ (c ∷ []))
  Chunks-append before [] c h k = (subst (λ b. Continues b c) (append-nil before) k, tt)
  Chunks-append before (x ∷ xs) c h k = (
    h.0,
    Chunks-append (before ++ (x ∷ [])) xs c h.1
        (subst (λ b. Continues b c) (sym (append_assoc before (x ∷ []) xs)) k),
  )

  -- The number of bytes behind the chunk, if the offset is accepted.
  advance-ok :
      (before : List NetworkPlaintext) (c : NetworkPlaintext) (next next' : ℕ)
      → next ≡ uint64 (covered before)
      → advance c.offset next (content c) ≡ ok next'
      → ((c.offset ≡ none) ⊎ (c.offset ≡ some next))
        × (next' ≡ uint64 (covered before + covered (c ∷ [])))
  unfolding advance
  advance-ok before c next next' e h = elim (Option-cases c.offset) [
    | inl none_of ↦ (inl none_of, ground (arith, none_of))
    | inr (o, some_of) ↦
        let h' : (reject (o != next) "plaintext offset gap"
              >> ok (uint64 (next + length (content c))))
            ≡ ok next' =
          subst (λ x. advance x next (content c) ≡ ok next') some_of h in
        let (p, q) = >>-eq-ok (reject (o != next) "plaintext offset gap") _ h' in
        let same = !=-eq-false o next (reject-eq-pass _ _ p) in
        (inr (some_of ∙ ap some same), sym (ok-injective q) ∙ rw some_of (omega (arith, e)))
  ]

  -- An accepted record joins the stream behind the others.
  pub extend-IsStream :
      (cs : List NetworkPlaintext) (s : StreamState) (c : NetworkPlaintext) {s' : StreamState}
      → IsStream cs s
      → extend json resolver hash s c ≡ ok s'
      → IsStream (cs ++ (c ∷ [])) s'
  unfolding extend
  extend-IsStream cs s c h e =
      let (p1, e1) = >>-eq-ok (reject s.closed _) _ e in
      let (p2, e2) = >>-eq-ok (reject (c.sequence != s.next_sequence) _) _ e1 in
      let (b, p3, e3) = >>=-eq-ok (payload_bytes json resolver c.payload) _ e2 in
      let (p4, e4) = >>-eq-ok (reject (uint64 (length b) != c.payload.length) _) _ e3 in
      let (p5, e5) = >>-eq-ok (reject (hex_encode (hash.sum b) != c.payload.sha256) _) _ e4 in
      let (o, p6, e6) = >>=-eq-ok (advance c.offset s.next_offset b) _ e5 in
      let held : content c ≡ b = ap bytes_or_empty p3 in
      let (at, offset) = advance-ok cs c s.next_offset o h.next_offset (rw held p6) in
      let numbered = !=-eq-false c.sequence s.next_sequence (reject-eq-pass _ _ p2) in
      let continues : Continues cs c = record {
        sequence = numbered ∙ h.next_sequence;
        offset = elim at [ inl x ↦ inl x | inr x ↦ inr (x ∙ ap some h.next_offset) ];
        available = p3 ∙ ap ok (sym held);
        size = rw held (!=-eq-false (uint64 (length b)) c.payload.length (reject-eq-pass _ _ p4));
        digest =
            rw held
              (!=-eq-false (hex_encode (hash.sum b)) c.payload.sha256 (reject-eq-pass _ _ p5));
        open_before = sym h.closed ∙ reject-eq-pass _ _ p1;
      } in
      subst (IsStream (cs ++ (c ∷ []))) (ok-injective e6) (record {
        chunks = Chunks-append [] cs c h.chunks continues;
        bytes =
            ap (λ t. t ++ b) h.bytes
            ∙ ap (λ t. joined cs ++ t) (sym held)
            ∙ sym (joined-append cs c);
        next_sequence = omega (arith, h.next_sequence, length-append cs (c ∷ []));
        next_offset = offset ∙ ap uint64 (sym (covered-append cs c));
        closed = ap (λ t. c.end_of_stream || t) h.closed ∙ sym (any_end-append cs c);
      })
