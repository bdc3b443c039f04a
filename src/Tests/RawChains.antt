-- ===== src/Tests/RawChains.antt =====
-- The raw chain of a run with one source, and the theorem on it.
use harness_trajectory_bench.Prelude.{
  String, ◌≡◌, refl, ◌⊎◌, List, [], ◌∷◌, nat_eq, string_eq, bool_eq, list_eq, pair_eq, pass, lookup,
  insert, utf8, len,
}
use harness_trajectory_bench.Prelude.{pair_beq}
use harness_trajectory_bench.Hex.{hex_encode, hex_decode, hex_digit, all_lower_hex}
use harness_trajectory_bench.Evidence.Raw.{
  frame, computed_hash, validate_record, chain_seed, validate_chain, valid_hash, validate_links,
  extend_chain, chained_hash, write_string, write_bytes, write_hash_field, be32, be64,
  write_optional,
}
use harness_trajectory_bench.Verifier.RawChains.{
  RawSource, group_by_source, check_raw_chain, validate_raw_chains,
}
use harness_trajectory_bench.Verifier.Intact.{of_source, Anchored, raw_chains_intact}
use harness_trajectory_bench.Tests.Fixtures.{toy_hash}
use harness_trajectory_bench.Tests.Records.{text_or, records, seed}

abbrev run_seed : String
run_seed = text_or "" (chain_seed toy_hash seed seed "s" "b")

abbrev heads : List (RawSource × String)
heads = (("s", "b"), text_or "" (validate_chain toy_hash records run_seed)) ∷ []

heads_match : validate_raw_chains toy_hash seed seed records heads ≡ pass
unfolding validate_raw_chains group_by_source check_raw_chain chain_seed write_hash_field lookup
    insert pair_beq validate_chain validate_links validate_record valid_hash computed_hash
    extend_chain chained_hash frame write_string write_bytes utf8 len toy_hash hex_encode hex_decode
    all_lower_hex hex_digit be32 be64 write_optional
heads_match = refl

raw_chains_intact_example :
    (of_source ("s", "b") records ≡ [])
    ⊎ Anchored toy_hash seed seed heads ("s", "b") (of_source ("s", "b") records)
raw_chains_intact_example =
    raw_chains_intact toy_hash seed seed records heads ("s", "b") heads_match
