-- ===== src/Evidence/Raw.antt =====
-- internal/evidence/raw.go: raw records, their binary frames and their hash chains.
use harness_trajectory_bench.Prelude.{
  ℕ, ◌+◌, ◌-◌, ◌/◌, ◌%◌, ◌^◌, String, Bool, true, false, ◌&&◌, ◌||◌, not, Option, none, some, List,
  [], ◌∷◌, ◌++◌, ltb, if◌then◌else◌, ◌==◌, ◌!=◌, nat_eq, string_eq, bool_eq, list_eq, pair_eq,
  Bytes, length, Result, ok, err, Check, ◌>>=◌, ◌>>◌, reject, codes, utf8, len, ℤ, pos, negsuc,
}
use harness_trajectory_bench.Hex.{Sha256, hex_encode, hex_decode, all_lower_hex}

-- A `time.Time`: an instant, in nanoseconds since 1970 however far away, and the zone it is shown in.
pub record WallTime : Type 0 where
  pub instant : ℤ
  pub zone : String

pub record RawRecord : Type 0 where
  pub run_id : String
  pub sensor_id : String
  pub boot_id : String
  pub source_seq : ℕ  -- uint64
  pub observed_monotonic_ns : Option ℕ
  pub observed_wall_time : Option WallTime
  pub record_type : String
  pub encoding : String
  pub payload : Bytes
  pub previous_record_sha256 : String
  pub record_sha256 : String

unfoldable pub valid_hash : String → Bool
unfolding hex_decode all_lower_hex len
valid_hash s =
    if len s != 64
    then false
    else if all_lower_hex (codes s)
    then elim (hex_decode (codes s)) [ none ↦ false | some b ↦ true ]
    else false

-- "HTBRAW1\x00"
abbrev pub raw_frame_magic : Bytes
raw_frame_magic = 0x48 ∷ 0x54 ∷ 0x42 ∷ 0x52 ∷ 0x41 ∷ 0x57 ∷ 0x31 ∷ 0 ∷ []

abbrev pub byte : ℕ → ℕ
byte n = n % 256

-- `binary.BigEndian.PutUint32`
unfoldable pub be32 : ℕ → Bytes
be32 n = byte (n / 2 ^ 24) ∷ byte (n / 2 ^ 16) ∷ byte (n / 2 ^ 8) ∷ byte n ∷ []

-- `binary.BigEndian.PutUint64`
unfoldable pub be64 : ℕ → Bytes
be64 n =
    byte (n / 2 ^ 56)
    ∷ byte (n / 2 ^ 48)
    ∷ byte (n / 2 ^ 40)
    ∷ byte (n / 2 ^ 32)
    ∷ byte (n / 2 ^ 24)
    ∷ byte (n / 2 ^ 16)
    ∷ byte (n / 2 ^ 8)
    ∷ byte n
    ∷ []

-- `uint64(UnixNano())`: the low 64 bits of the instant.
abbrev pub uint64_of : ℤ → ℕ
uint64_of (pos n) = n % 2 ^ 64
uint64_of (negsuc n) = 2 ^ 64 - 1 - n % 2 ^ 64

unfoldable pub write_bytes : Bytes → Result Bytes
write_bytes p =
    if ltb (2 ^ 32 - 1) (length p)
    then err "raw frame field exceeds uint32 length"
    else ok (be32 (length p) ++ p)

unfoldable pub write_string : String → Result Bytes
write_string s = write_bytes (utf8 s)

-- A presence tag, and the value if there is one.
unfoldable pub write_optional : Option ℕ → Bytes
write_optional none = 0 ∷ []
write_optional (some v) = 1 ∷ be64 v

-- `UTC` drops the zone.
abbrev pub wall_bits : Option WallTime → Option ℕ
wall_bits none = none
wall_bits (some t) = some (uint64_of t.instant)

abbrev pub missing_identity : RawRecord → Bool
missing_identity r =
    (r.run_id == "")
    || (r.sensor_id == "")
    || (r.boot_id == "")
    || (r.record_type == "")
    || (r.encoding == "")

abbrev pub bad_previous : RawRecord → Bool
bad_previous r = (r.previous_record_sha256 != "") && not (valid_hash r.previous_record_sha256)

unfoldable pub frame : RawRecord → Result Bytes
frame r = do
  reject (missing_identity r) "raw record has missing identity or type"
  reject (bad_previous r) "invalid previous record hash"
  run ← write_string r.run_id
  sensor ← write_string r.sensor_id
  boot ← write_string r.boot_id
  record_type ← write_string r.record_type
  encoding ← write_string r.encoding
  previous ← write_string r.previous_record_sha256
  payload ← write_bytes r.payload
  ok (
      raw_frame_magic
      ++ (run
          ++ (sensor
              ++ (boot
                  ++ (be64 r.source_seq
                      ++ (write_optional r.observed_monotonic_ns
                          ++ (write_optional (wall_bits r.observed_wall_time)
                              ++ (record_type ++ (encoding ++ (previous ++ payload))))))))))

-- "HTB/chain-seed/v1\x00"
abbrev pub seed_prefix : Bytes
seed_prefix =
    0x48 ∷ 0x54 ∷ 0x42 ∷ 0x2f ∷ 0x63 ∷ 0x68 ∷ 0x61 ∷ 0x69 ∷ 0x6e ∷ 0x2d ∷ 0x73 ∷ 0x65 ∷ 0x65 ∷ 0x64
    ∷ 0x2f ∷ 0x76 ∷ 0x31 ∷ 0 ∷ []

unfoldable pub write_hash_field : String → Result Bytes
write_hash_field value =
    if ltb (2 ^ 32 - 1) (len value)
    then err "chain seed field exceeds uint32 length"
    else ok (be32 (len value) ++ utf8 value)

abbrev pub breaks_source : RawRecord → RawRecord → RawRecord → Bool
breaks_source origin prior r =
    (r.sensor_id != origin.sensor_id)
    || (r.boot_id != origin.boot_id)
    || (r.run_id != origin.run_id)
    || (prior.source_seq == 2 ^ 64 - 1)
    || (r.source_seq != prior.source_seq + 1)

abbrev pub bytes_or_none : Option Bytes → Bytes
bytes_or_none none = []
bytes_or_none (some b) = b

module _ (hash : Sha256) where
  unfoldable pub computed_hash : RawRecord → Result String
  computed_hash r = do f ← frame r; ok (hex_encode (hash.sum f))

  unfoldable pub validate_record : RawRecord → Check
  validate_record r = do
    reject (r.source_seq == 0) "raw record source sequence must be positive"
    h ← computed_hash r
    reject (not (valid_hash r.record_sha256) || (r.record_sha256 != h))
        "raw record hash does not match exact frame"

  unfoldable pub chain_seed : String → String → String → String → Result String
  chain_seed run_spec_digest plan_digest sensor_id boot_id = do
    reject
        (not (valid_hash run_spec_digest)
          || not (valid_hash plan_digest)
          || (sensor_id == "")
          || (boot_id == ""))
        "invalid chain seed inputs"
    a ← write_hash_field run_spec_digest
    b ← write_hash_field plan_digest
    c ← write_hash_field sensor_id
    d ← write_hash_field boot_id
    ok (hex_encode (hash.sum (seed_prefix ++ (a ++ (b ++ (c ++ d))))))

  -- The decoder's error is dropped: a valid hash always decodes.
  unfoldable pub chained_hash : String → Bytes → Result String
  chained_hash previous_chain_hash f = do
    reject (not (valid_hash previous_chain_hash)) "invalid previous chain hash"
    ok (hex_encode (hash.sum (bytes_or_none (hex_decode (codes previous_chain_hash)) ++ f)))

  -- The frame of a record and its link, at the end of each round of `ValidateChain`.
  unfoldable pub extend_chain : String → RawRecord → Result String
  extend_chain previous r = do f ← frame r; chained_hash previous f

  -- The rounds of `ValidateChain` from the second record on: `origin` is the first record, `prior`
  -- the one before.
  unfoldable pub validate_links : RawRecord → RawRecord → String → List RawRecord → Result String
  validate_links origin prior previous [] = ok previous
  validate_links origin prior previous (r ∷ rs) = do
    validate_record r
    reject (breaks_source origin prior r) "record breaks source identity or sequence"
    reject (r.previous_record_sha256 != prior.record_sha256) "record previous record hash mismatch"
    next ← extend_chain previous r
    validate_links origin r next rs

  unfoldable pub validate_chain : List RawRecord → String → Result String
  validate_chain [] seed = do reject (not (valid_hash seed)) "invalid chain seed"; ok seed
  validate_chain (r ∷ rs) seed = do
    reject (not (valid_hash seed)) "invalid chain seed"
    validate_record r
    reject ((r.source_seq != 1) || (r.previous_record_sha256 != ""))
        "first record must have source sequence 1 and no previous record hash"
    next ← extend_chain seed r
    validate_links r r next rs
