-- ===== src/Evidence/Chain.antt =====
-- What `ValidateChain` establishes, and how far the chain head binds the records.
use Prim.Native.Char.{code}
use harness_trajectory_bench.Prelude.{
  suc, ◌+◌, ◌<◌, String, ◌≡◌, refl, sym, ap, ◌≢◌, inl, inr, true, false, ◌||◌, not, List, [], ◌∷◌,
  ◌++◌, arith, ◌!=◌, ==_iff, nat_eq, string_eq, bool_eq, list_eq, pair_eq, Option-cases, Bytes,
  length, ok, pass, reject, Result-cases, >>=-eq-ok, >>-eq-ok, reject-eq-pass, ok-injective,
  !=-eq-false, codes, utf8, len, rune_bytes-ascii,
}
use harness_trajectory_bench.Hex.{Sha256, hex_encode, hex_decode, all_lower_hex}
use harness_trajectory_bench.Hex.Laws.{length-hex_decode}
use harness_trajectory_bench.Evidence.Raw.{
  RawRecord, valid_hash, frame, computed_hash, validate_record, bytes_or_none, chained_hash,
  extend_chain, breaks_source, validate_links, validate_chain,
}

pub length-utf8-hex :
    (s : String) → all_lower_hex (codes s) ≡ true → length (utf8 s) ≡ length (codes s)
unfolding utf8 all_lower_hex
length-utf8-hex String.[] h = refl
length-utf8-hex (String.◌∷◌ c s) h =
    let lower : (code c < 0x80) × (all_lower_hex (codes s) ≡ true) = ground arith in
    rw (rune_bytes-ascii (code c) lower.0) (ap suc (length-utf8-hex s lower.1))

abbrev pub decoded : String → Bytes
decoded s = bytes_or_none (hex_decode (codes s))

-- A valid hash stands for 32 bytes.
pub length-decoded : (s : String) → valid_hash s ≡ true → length (decoded s) ≡ 32
unfolding valid_hash len
length-decoded s h = elim (Option-cases (hex_decode (codes s))) [
  | inl e ↦ absurd (ground arith)
  | inr (b, e) ↦
      let facts : (len s ≡ 64) × (all_lower_hex (codes s) ≡ true) = ground (arith, e) in
      rw e (omega (arith, length-hex_decode (codes s) b e, length-utf8-hex s facts.1, facts.0))
]

module _ (hash : Sha256) where
  -- The record's hash is that of its frame.
  pub record Intact (r : RawRecord) : Type 0 where
    pub bytes : Bytes
    pub framed : frame r ≡ ok bytes
    pub digest : r.record_sha256 ≡ hex_encode (hash.sum bytes)
    pub positive : r.source_seq ≢ 0

  pub validate_record-Intact : (r : RawRecord) → validate_record hash r ≡ pass → Intact r
  unfolding validate_record computed_hash
  validate_record-Intact r h = elim (Result-cases (frame r)) [
    | inr (m, e) ↦ absurd (ground arith)
    | inl (b, e) ↦ record {
      bytes = b;
      framed = e;
      digest = ground (arith, ==_iff r.record_sha256 (hex_encode (hash.sum b)));
      positive = λ z. absurd (ground arith);
    }
  ]

  -- One link: the new head is the hash of the decoded old head and the frame.
  pub extend_chain-ok :
      (previous : String) (r : RawRecord) {next : String}
      → extend_chain hash previous r ≡ ok next
      → (f : Bytes) × (frame r ≡ ok f)
        × (valid_hash previous ≡ true)
        × (next ≡ hex_encode (hash.sum (decoded previous ++ f)))
  unfolding extend_chain chained_hash
  extend_chain-ok previous r h =
      let (f, e, g) = >>=-eq-ok (frame r) _ h in
      let (p, q) =
        >>-eq-ok (reject (not (valid_hash previous)) "invalid previous chain hash") _ g in
      (f, e, ground arith, sym (ok-injective q))

  -- The records behind `prior`: intact, from the source of `origin`, numbered on without a gap, and
  -- each naming the hash of the record before it.
  abbrev pub Follows : RawRecord → RawRecord → List RawRecord → Type 0
  Follows origin prior [] = Unit
  Follows origin prior (r ∷ rs) =
      Intact r
      × (r.sensor_id ≡ origin.sensor_id)
      × (r.boot_id ≡ origin.boot_id)
      × (r.run_id ≡ origin.run_id)
      × (r.source_seq ≡ prior.source_seq + 1)
      × (r.previous_record_sha256 ≡ prior.record_sha256)
      × Follows origin r rs

  same_source :
      (origin prior r : RawRecord)
      → breaks_source origin prior r ≡ false
      → (r.sensor_id ≡ origin.sensor_id)
        × (r.boot_id ≡ origin.boot_id)
        × (r.run_id ≡ origin.run_id)
        × (r.source_seq ≡ prior.source_seq + 1)
  same_source origin prior r h = ground (
    arith,
    ==_iff r.sensor_id origin.sensor_id,
    ==_iff r.boot_id origin.boot_id,
    ==_iff r.run_id origin.run_id,
  )

  validate_links-Follows :
      (origin prior : RawRecord) (previous : String) (rs : List RawRecord) {head : String}
      → validate_links hash origin prior previous rs ≡ ok head
      → Follows origin prior rs
  unfolding validate_links
  validate_links-Follows origin prior previous [] h = tt
  validate_links-Follows origin prior previous (r ∷ rs) h =
      let (p0, h0) = >>-eq-ok (validate_record hash r) _ h in
      let (p1, h1) = >>-eq-ok (reject (breaks_source origin prior r) _) _ h0 in
      let (p2, h2) = >>-eq-ok (reject (r.previous_record_sha256 != prior.record_sha256) _) _ h1 in
      let (next, p3, h3) = >>=-eq-ok (extend_chain hash previous r) _ h2 in
      let (a, b, c, d) = same_source origin prior r (reject-eq-pass _ _ p1) in
      (
        validate_record-Intact r p0,
        a,
        b,
        c,
        d,
        !=-eq-false r.previous_record_sha256 prior.record_sha256 (reject-eq-pass _ _ p2),
        validate_links-Follows origin r next rs h3,
      )

  -- A chain from its first record on.
  abbrev pub IsChain : List RawRecord → Type 0
  IsChain [] = Unit
  IsChain (r ∷ rs) =
      Intact r × (r.source_seq ≡ 1) × (r.previous_record_sha256 ≡ "") × Follows r r rs

  -- An accepted chain has intact records of one run, sensor and boot, numbered 1, 2, 3, … without a
  -- gap, each naming the hash of the record before it.
  pub validate_chain-IsChain :
      (records : List RawRecord) (seed : String) {head : String}
      → validate_chain hash records seed ≡ ok head
      → IsChain records
  unfolding validate_chain
  validate_chain-IsChain [] seed h = tt
  validate_chain-IsChain (r ∷ rs) seed h =
      let (p0, h0) = >>-eq-ok (reject (not (valid_hash seed)) _) _ h in
      let (p1, h1) = >>-eq-ok (validate_record hash r) _ h0 in
      let (p2, h2) =
        >>-eq-ok (reject ((r.source_seq != 1) || (r.previous_record_sha256 != "")) _) _ h1 in
      let (next, p3, h3) = >>=-eq-ok (extend_chain hash seed r) _ h2 in
      (
        validate_record-Intact r p1,
        ground arith,
        ground (arith, ==_iff r.previous_record_sha256 ""),
        validate_links-Follows r r next rs h3,
      )
