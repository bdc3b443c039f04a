-- ===== src/Plaintext/Flows.antt =====
-- What `ReconcileFlows` of internal/plaintext/assembler.go establishes.
use mathlib.Core.List.{Memᴰ}
use mathlib.Core.List.Memᴰ.{head, tail}
use harness_trajectory_bench.Prelude.{
  ◌≡◌, refl, sym, ap, ◌∙◌, subst, ◌≢◌, ◌⊎◌, inl, inr, true, false, Option, none, some, List, [],
  ◌∷◌, map, arith, ◌==◌, ==_iff, nat_eq, string_eq, bool_eq, list_eq, pair_eq, Bool-cases,
  Option-cases, Bytes, length, All, pass, check_all, >>-eq-ok, reject-eq-pass, contains, lookup,
  uint64, All-map, Distinct, check_once, check_once_iff,
}
use harness_trajectory_bench.Hex.{Sha256, hex_encode}
use harness_trajectory_bench.Events.Observed.{NetworkPlaintext}
use harness_trajectory_bench.Events.Codec.{Codec}
use harness_trajectory_bench.Plaintext.Assembler.{
  StreamKey, StreamState, Assembler, ArtifactResolver, new_assembler, stream_key, FlowAccounting,
  flow_key, check_flow, settle, check_accounted, reconcile_flows,
}
use harness_trajectory_bench.Plaintext.Streams.{any_end, joined}
use harness_trajectory_bench.Plaintext.Reassembly.{
  of_key, Holds, feed, accepted, streams_reassemble,
}

-- A flow that was let through agrees with the accepted records of its key.
pub record Agrees (hash : Sha256) (cs : List NetworkPlaintext) (content : Bytes)
    (f : FlowAccounting) : Type 0 where
  pub allowed : f.denied ≡ false
  pub ended : any_end cs ≡ true
  pub size : uint64 (length content) ≡ f.bytes
  pub digest : hex_encode (hash.sum content) ≡ f.sha256

contains-Memᴰ : (ks : List StreamKey) (k : StreamKey) → contains ks k ≡ true → Memᴰ k ks
unfolding contains
contains-Memᴰ [] k h = cc
contains-Memᴰ (j ∷ ks) k h = elim (Bool-cases (j == k)) [
  | inl e ↦ head (sym ((==_iff j k).0 e))
  | inr e ↦ tail (contains-Memᴰ ks k (ground arith))
]

of_key-not-nil :
    (c : NetworkPlaintext) (cs : List NetworkPlaintext) → Memᴰ c cs → of_key (stream_key c) cs ≢ []
of_key-not-nil c [] m h = elim m [ ]
of_key-not-nil c (d ∷ ds) (head e) h =
    absurd
      (ground (arith, (==_iff (stream_key d) (stream_key c)).1 (ap (λ x. stream_key x) (sym e))))
of_key-not-nil c (d ∷ ds) (tail m) h = elim (Bool-cases (stream_key d == stream_key c)) [
  | inl e ↦ absurd (ground arith)
  | inr e ↦ of_key-not-nil c ds m (ground arith)
]

-- A denied flow has no records, any other one agrees with them.
abbrev pub Settled : Sha256 → List NetworkPlaintext → Bytes → FlowAccounting → Type 0
Settled hash cs content f = ((f.denied ≡ true) × (cs ≡ [])) ⊎ Agrees hash cs content f

All-of : {A : Type 0} (P : A → Type 0) (xs : List A) → ((a : A) → Memᴰ a xs → P a) → All P xs
All-of P [] h = tt
All-of P (x ∷ xs) h = (h x (head refl), All-of P xs (λ a m. h a (tail m)))

-- Every entry of the map has its flow.
accounted :
    (seen : List StreamKey) (k : StreamKey) (a : Assembler) {s : StreamState}
    → lookup k a ≡ some s
    → check_all (check_accounted seen) a ≡ pass
    → contains seen k ≡ true
unfolding lookup
accounted seen k [] e h = cc
accounted seen k ((j, t) ∷ a) {s = s} e h =
    let (p, q) = >>-eq-ok (check_accounted seen (j, t)) _ h in
    elim (Bool-cases (j == k)) [
      | inl x ↦
          subst (λ y. contains seen y ≡ true) ((==_iff j k).0 x)
            (ground (arith, reject-eq-pass _ _ p))
      | inr x ↦ accounted seen k a {s = s} (ground arith) q
    ]

module _ (json : Codec) (resolver : ArtifactResolver) (hash : Sha256) where
  settle-Settled :
      (cs : List NetworkPlaintext) (o : Option StreamState) (f : FlowAccounting)
      → Holds json resolver hash cs o
      → settle hash f o ≡ pass
      → Settled hash cs (joined json resolver hash cs) f
  settle-Settled cs none f i h = inl (ground arith, i)
  settle-Settled cs (some s) f i h = inr (record {
    allowed = ground arith;
    ended = sym i.closed ∙ ground arith;
    size =
        ap (λ b. uint64 (length b)) (sym i.bytes)
        ∙ (==_iff (uint64 (length s.bytes)) f.bytes).0 (ground arith);
    digest =
        ap (λ b. hex_encode (hash.sum b)) (sym i.bytes)
        ∙ (==_iff (hex_encode (hash.sum s.bytes)) f.sha256).0 (ground arith);
  })

  -- After any records were offered to a new assembler, an accepted reconciliation means: no two
  -- flows have the same key; a denied flow has no accepted record; the accepted records of any
  -- other flow end its stream, and their joined bytes have the flow's length (as a uint64) and
  -- digest; and every accepted record belongs to a flow.
  pub reconciled_flows :
      (cs : List NetworkPlaintext) (flows : List FlowAccounting)
      → reconcile_flows hash (feed json resolver hash new_assembler cs) flows ≡ pass
      → Distinct flow_key flows
        × All
            (λ f.
              Settled hash
                (of_key (flow_key f) (accepted json resolver hash new_assembler cs))
                (joined json resolver hash
                  (of_key (flow_key f) (accepted json resolver hash new_assembler cs)))
                f)
            flows
        × All
            (λ c. Memᴰ (stream_key c) (map flow_key flows))
            (accepted json resolver hash new_assembler cs)
  unfolding reconcile_flows
  reconciled_flows cs flows h =
      let a = feed json resolver hash new_assembler cs in
      let tracks = streams_reassemble json resolver hash cs in
      let (p, q) =
        >>-eq-ok
          (check_once flow_key "duplicate flow accounting" check_flow
            (λ f. settle hash f (lookup (flow_key f) a)) [] flows)
          _ h in
      let (all, distinct) =
        (check_once_iff flow_key "duplicate flow accounting" check_flow
            (λ f. settle hash f (lookup (flow_key f) a)) flows).0
          p in
      (
        distinct,
        All-map _ _ (λ f x. settle-Settled _ (lookup (flow_key f) a) f (tracks (flow_key f)) x.1)
            flows all,
        All-of _ _
            (λ c m. belongs c m (Option-cases (lookup (stream_key c) a)) (tracks (stream_key c)) q),
      )
    where
      belongs :
          (c : NetworkPlaintext)
          → Memᴰ c (accepted json resolver hash new_assembler cs)
          → (lookup (stream_key c) (feed json resolver hash new_assembler cs) ≡ none)
            ⊎ ((s : StreamState) × (lookup (stream_key c) (feed json resolver hash new_assembler cs)
                  ≡ some s))
          → Holds json resolver hash
              (of_key (stream_key c) (accepted json resolver hash new_assembler cs))
              (lookup (stream_key c) (feed json resolver hash new_assembler cs))
          → check_all
              (check_accounted (map flow_key flows))
              (feed json resolver hash new_assembler cs)
            ≡ pass
          → Memᴰ (stream_key c) (map flow_key flows)
      belongs c m (inl e) t q = absurd (
          of_key-not-nil c _ m (
            subst
              (Holds json resolver hash
                (of_key (stream_key c) (accepted json resolver hash new_assembler cs)))
              e t))
      belongs c m (inr (s, e)) t q = contains-Memᴰ _ _ (accounted _ (stream_key c) _ e q)
