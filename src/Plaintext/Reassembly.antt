-- ===== src/Plaintext/Reassembly.antt =====
-- The streams of an assembler are the accepted records of their keys, whatever was refused between.
use mathlib.Core.List.{append-nil, append_assoc}
use harness_trajectory_bench.Prelude.{
  String, ◌≡◌, refl, sym, ap, subst, ◌≢◌, inl, inr, Bool, true, false, Option, none, some, List, [],
  ◌∷◌, ◌++◌, arith, if◌then◌else◌, ◌==◌, ==_iff, nat_eq, string_eq, bool_eq, list_eq, pair_eq,
  Bool-cases, keep_if, ok, err, Check, pass, is_ok, Result-cases, ==_eq-false, lookup, insert,
  lookup-insert,
}
use harness_trajectory_bench.Hex.{Sha256}
use harness_trajectory_bench.Events.Observed.{NetworkPlaintext}
use harness_trajectory_bench.Events.Codec.{Codec}
use harness_trajectory_bench.Events.Content.{validate_network_plaintext}
use harness_trajectory_bench.Plaintext.Assembler.{
  StreamKey, StreamState, Assembler, ArtifactResolver, new_assembler, stream_key, stream_of, extend,
  add,
}
use harness_trajectory_bench.Plaintext.Streams.{IsStream, fresh-IsStream, extend-IsStream}

-- The records of a stream, in order.
abbrev pub of_key : StreamKey → List NetworkPlaintext → List NetworkPlaintext
of_key k = keep_if (λ c. stream_key c == k)

of_key-append :
    (k : StreamKey) (h g : List NetworkPlaintext) → of_key k (h ++ g) ≡ of_key k h ++ of_key k g
of_key-append k [] g = refl
of_key-append k (c ∷ h) g = elim (Bool-cases (stream_key c == k)) [
  | inl e ↦ rw e (ap (λ t. c ∷ t) (of_key-append k h g))
  | inr e ↦ rw e (of_key-append k h g)
]

module _ (json : Codec) (resolver : ArtifactResolver) (hash : Sha256) where
  abbrev pub Holds : List NetworkPlaintext → Option StreamState → Type 0
  Holds cs none = cs ≡ []
  Holds cs (some s) = IsStream json resolver hash cs s

  -- Every stream of the assembler holds the records of its key in the history.
  abbrev pub Tracks : List NetworkPlaintext → Assembler → Type 0
  Tracks history a = (k : StreamKey) → Holds (of_key k history) (lookup k a)

  -- The calls of `Add` one after the other; the caller goes on behind an error.
  abbrev pub feed : Assembler → List NetworkPlaintext → Assembler
  feed a [] = a
  feed a (c ∷ cs) = feed (add json resolver hash a c).0 cs

  -- The records whose `Add` returned no error.
  abbrev pub accepted : Assembler → List NetworkPlaintext → List NetworkPlaintext
  accepted a [] = []
  accepted a (c ∷ cs) =
      let rest = accepted (add json resolver hash a c).0 cs in
      if is_ok (add json resolver hash a c).1 then c ∷ rest else rest

  held_by :
      (k : StreamKey) (cs : List NetworkPlaintext) (o : Option StreamState) (a : Assembler)
      → lookup k a ≡ o
      → Holds cs o
      → IsStream json resolver hash cs (stream_of k a)
  unfolding stream_of
  held_by k cs none a e h = rw (e, stream_of, h) (fresh-IsStream json resolver hash)
  held_by k cs (some s) a e h = rw (e, stream_of) h

  stream_of-IsStream :
      (h : List NetworkPlaintext) (a : Assembler) (k : StreamKey)
      → Tracks h a
      → IsStream json resolver hash (of_key k h) (stream_of k a)
  stream_of-IsStream h a k t = held_by k (of_key k h) (lookup k a) a refl (t k)

  -- Setting the entry of one key.
  Holds-insert :
      (k j : StreamKey) (s : StreamState) (a : Assembler) (cs : List NetworkPlaintext)
      → (k ≡ j → IsStream json resolver hash cs s)
      → (k ≢ j → Holds cs (lookup j a))
      → Holds cs (lookup j (insert k s a))
  Holds-insert k j s a cs same other = elim (Bool-cases (k == j)) [
    | inl e ↦ rw (lookup-insert k j s a, e) (same ((==_iff k j).0 e))
    | inr e ↦ rw (lookup-insert k j s a, e) (other (λ z. absurd (ground (arith, (==_iff k j).1 z))))
  ]

  opened-Tracks :
      (h : List NetworkPlaintext) (a : Assembler) (k : StreamKey)
      → Tracks h a
      → Tracks h (insert k (stream_of k a) a)
  opened-Tracks h a k t j =
      Holds-insert k j (stream_of k a) a (of_key j h)
        (λ e.
          subst (λ x. IsStream json resolver hash (of_key x h) (stream_of k a)) e
            (stream_of-IsStream h a k t))
        (λ _. t j)

  extended-Tracks :
      (h : List NetworkPlaintext) (a : Assembler) (c : NetworkPlaintext) (s : StreamState)
      → Tracks h a
      → IsStream json resolver hash (of_key (stream_key c) h ++ (c ∷ [])) s
      → Tracks (h ++ (c ∷ [])) (insert (stream_key c) s a)
  extended-Tracks h a c s t i j = rw (of_key-append j h (c ∷ [])) (
      Holds-insert (stream_key c) j s a _
        (λ e.
          rw ((==_iff (stream_key c) j).1 e)
            (subst (λ x. IsStream json resolver hash (of_key x h ++ (c ∷ [])) s) e i))
        (λ n. rw (==_eq-false (stream_key c) j n, append-nil (of_key j h)) (t j)))

  -- The three ways in which `Add` returns.
  add-invalid :
      (a : Assembler) (c : NetworkPlaintext) (m : String)
      → validate_network_plaintext json hash c ≡ err m
      → add json resolver hash a c ≡ (a, err m)
  unfolding add
  add-invalid a c m e = rw (e, add) refl

  add-refused :
      (a : Assembler) (c : NetworkPlaintext) (m : String)
      → validate_network_plaintext json hash c ≡ pass
      → extend json resolver hash (stream_of (stream_key c) a) c ≡ err m
      → add json resolver hash a c ≡ (insert (stream_key c) (stream_of (stream_key c) a) a, err m)
  unfolding add
  add-refused a c m e f = rw (e, f, add) refl

  add-accepted :
      (a : Assembler) (c : NetworkPlaintext) (s : StreamState)
      → validate_network_plaintext json hash c ≡ pass
      → extend json resolver hash (stream_of (stream_key c) a) c ≡ ok s
      → add json resolver hash a c
        ≡ (insert (stream_key c) s (insert (stream_key c) (stream_of (stream_key c) a) a), pass)
  unfolding add
  add-accepted a c s e f = rw (e, f, add) refl

  abbrev Tracked : List NetworkPlaintext → NetworkPlaintext → Assembler × Check → Type 0
  Tracked h c r = Tracks (h ++ (if is_ok r.1 then c ∷ [] else [])) r.0

  add-Tracks :
      (h : List NetworkPlaintext) (a : Assembler) (c : NetworkPlaintext)
      → Tracks h a
      → Tracked h c (add json resolver hash a c)
  add-Tracks h a c t =
      let k = stream_key c in
      elim (Result-cases (validate_network_plaintext json hash c)) [
        | inr (m, e) ↦
            subst (Tracked h c) (sym (add-invalid a c m e))
              (subst (λ x. Tracks x a) (sym (append-nil h)) t)
        | inl (tt, e) ↦ elim (Result-cases (extend json resolver hash (stream_of k a) c)) [
          | inr (m, f) ↦ subst (Tracked h c) (sym (add-refused a c m e f)) (
              subst (λ x. Tracks x (insert k (stream_of k a) a)) (sym (append-nil h))
                (opened-Tracks h a k t))
          | inl (s, f) ↦ subst (Tracked h c) (sym (add-accepted a c s e f)) (
              extended-Tracks h (insert k (stream_of k a) a) c s (opened-Tracks h a k t) (
                extend-IsStream json resolver hash (of_key k h) (stream_of k a) c
                  (stream_of-IsStream h a k t) f))
        ]
      ]

  feed-Tracks :
      (h : List NetworkPlaintext) (a : Assembler) (cs : List NetworkPlaintext)
      → Tracks h a
      → Tracks (h ++ accepted a cs) (feed a cs)
  feed-Tracks h a [] t = rw (append-nil h) t
  feed-Tracks h a (c ∷ cs) t =
      subst (λ x. Tracks x (feed a (c ∷ cs))) (regroup (is_ok (add json resolver hash a c).1))
        (feed-Tracks (h ++ (if is_ok (add json resolver hash a c).1 then c ∷ [] else []))
          (add json resolver hash a c).0 cs (add-Tracks h a c t))
    where
      regroup :
          (b : Bool)
          → (h ++ (if b then c ∷ [] else [])) ++ accepted (add json resolver hash a c).0 cs
            ≡ h
              ++ (if b
                  then c ∷ accepted (add json resolver hash a c).0 cs
                  else accepted (add json resolver hash a c).0 cs)
      regroup true = append_assoc h (c ∷ []) _
      regroup false = ap (λ x. x ++ accepted (add json resolver hash a c).0 cs) (append-nil h)

  pub streams_reassemble :
      (cs : List NetworkPlaintext) (k : StreamKey)
      → Holds (of_key k (accepted new_assembler cs)) (lookup k (feed new_assembler cs))
  streams_reassemble cs k = feed-Tracks [] new_assembler cs nothing k
    where
      nothing : Tracks [] new_assembler
      nothing k = unfold lookup in refl
