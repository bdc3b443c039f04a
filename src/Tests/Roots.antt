-- ===== src/Tests/Roots.antt =====
-- Witnesses for the Merkle root of internal/evidence/raw.go.
use harness_trajectory_bench.Prelude.{
  ℕ, String, ◌≡◌, refl, ◌⊎◌, List, ◌∷◌, map, arith, ok, [], nat_eq, string_eq, bool_eq, list_eq,
  pair_eq,
}
use harness_trajectory_bench.Hex.{hex_encode, hex_decode, hex_digit, all_lower_hex}
use harness_trajectory_bench.Hex.Collides.{Collides}
use harness_trajectory_bench.Evidence.Raw.{valid_hash}
use harness_trajectory_bench.Evidence.Merkle.{
  leaf_bytes, sort_strings, parent, next_level, reduce_levels, compute_merkle_root,
}
use harness_trajectory_bench.Evidence.Roots.{tree_inputs, merkle_root_total, merkle_root_binds}
use harness_trajectory_bench.Tests.Fixtures.{toy_hash, toy_sum}
use harness_trajectory_bench.Tests.Records.{text_or}

abbrev leaf : ℕ → String
leaf n = hex_encode (toy_sum (n ∷ []))

abbrev leaves : List String
leaves = leaf 1 ∷ leaf 2 ∷ leaf 3 ∷ []

abbrev shuffled : List String
shuffled = leaf 3 ∷ leaf 1 ∷ leaf 2 ∷ []

abbrev root : String
root = text_or "" (compute_merkle_root toy_hash leaves)

merkle_root_total_example : (r : String) × (compute_merkle_root toy_hash leaves ≡ ok r)
unfolding valid_hash hex_encode hex_decode all_lower_hex toy_sum hex_digit
merkle_root_total_example =
    merkle_root_total toy_hash leaves (omega arith) (refl, (refl, (refl, tt)))

merkle_root_binds_example :
    (map leaf_bytes (sort_strings leaves) ≡ map leaf_bytes (sort_strings shuffled))
    ⊎ Collides toy_hash
        (tree_inputs toy_hash 3 (map leaf_bytes (sort_strings leaves)))
        (tree_inputs toy_hash 3 (map leaf_bytes (sort_strings shuffled)))
unfolding compute_merkle_root sort_strings reduce_levels next_level parent valid_hash hex_encode
    hex_decode all_lower_hex toy_sum hex_digit
merkle_root_binds_example = merkle_root_binds toy_hash leaves shuffled root refl refl refl
