-- ===== src/Tests/Records.antt =====
-- A chain of two raw records, and the theorems on it.
use harness_trajectory_bench.Prelude.{
  negsuc, String, ◌≡◌, refl, ◌⊎◌, some, List, [], ◌∷◌, arith, nat_eq, string_eq, bool_eq, list_eq,
  pair_eq, Bytes, Result, ok, err, utf8, len,
}
use harness_trajectory_bench.Hex.{hex_encode, hex_decode, hex_digit, all_lower_hex}
use harness_trajectory_bench.Hex.Collides.{Collides}
use harness_trajectory_bench.Evidence.Raw.{
  RawRecord, frame, computed_hash, validate_record, validate_chain, valid_hash, validate_links,
  extend_chain, chained_hash, write_string, write_bytes, be32, be64, write_optional,
}
use harness_trajectory_bench.Evidence.Framing.{InRange, SameFields, frame-injective}
use harness_trajectory_bench.Evidence.Chain.{decoded, IsChain, validate_chain-IsChain}
use harness_trajectory_bench.Evidence.Binding.{SameRecords, chain_inputs, validate_chain_binds}
use harness_trajectory_bench.Tests.Fixtures.{toy_hash, toy_sum}

abbrev pub text_or : String → Result String → String
text_or other (ok s) = s
text_or other (err e) = other

abbrev bytes_of : Result Bytes → Bytes
bytes_of (ok s) = s
bytes_of (err e) = []

abbrev unsigned : RawRecord
unsigned = record {
  run_id = "r";
  sensor_id = "s";
  boot_id = "b";
  source_seq = 1;
  observed_monotonic_ns = some 7;
  observed_wall_time = some (record { instant = negsuc 4; zone = "UTC" });
  record_type = "flow";
  encoding = "json";
  payload = 1 ∷ 2 ∷ [];
  previous_record_sha256 = "";
  record_sha256 = "";
}

abbrev signed : RawRecord → RawRecord
signed r = record r { record_sha256 = text_or "" (computed_hash toy_hash r) }

abbrev first : RawRecord
first = signed unsigned

abbrev second : RawRecord
second =
    signed (record unsigned {
      source_seq = 2;
      payload = [];
      previous_record_sha256 = first.record_sha256;
    })

abbrev pub records : List RawRecord
records = first ∷ second ∷ []

abbrev pub seed : String
seed = hex_encode (toy_sum [])

abbrev head : String
head = text_or "" (validate_chain toy_hash records seed)

accepted : validate_chain toy_hash records seed ≡ ok head
unfolding validate_chain validate_links validate_record valid_hash computed_hash extend_chain
    chained_hash frame write_string write_bytes utf8 len toy_hash hex_encode hex_decode
    all_lower_hex hex_digit be32 be64 write_optional
accepted = refl

first-InRange : InRange first
first-InRange = record { source_seq = omega arith; monotonic = omega arith; wall = omega arith }

unsigned-InRange : InRange unsigned
unsigned-InRange = record { source_seq = omega arith; monotonic = omega arith; wall = omega arith }

abbrev elsewhere : RawRecord
elsewhere = record first { observed_wall_time = some (record { instant = negsuc 4; zone = "CET" }) }

elsewhere-InRange : InRange elsewhere
elsewhere-InRange = record { source_seq = omega arith; monotonic = omega arith; wall = omega arith }

second-InRange : InRange second
second-InRange = record { source_seq = omega arith; monotonic = omega arith; wall = omega arith }

frame-injective_example : SameFields unsigned elsewhere
unfolding frame write_string write_bytes utf8
frame-injective_example =
    frame-injective unsigned elsewhere {f = bytes_of (frame first)} unsigned-InRange
      elsewhere-InRange refl refl

validate_chain-IsChain_example : IsChain toy_hash records
validate_chain-IsChain_example = validate_chain-IsChain toy_hash records seed accepted

validate_chain_binds_example :
    SameRecords records records
    ⊎ Collides toy_hash
        (chain_inputs toy_hash (decoded seed) records)
        (chain_inputs toy_hash (decoded seed) records)
validate_chain_binds_example =
    validate_chain_binds toy_hash records records seed seed (first-InRange, (second-InRange, tt))
      (first-InRange, (second-InRange, tt)) refl accepted accepted
