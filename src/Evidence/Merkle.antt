-- ===== src/Evidence/Merkle.antt =====
-- `ComputeMerkleRoot` of internal/evidence/raw.go.
use Prim.Native.String
use Prim.Native.Nat.{lt, eq, gt}
use harness_trajectory_bench.Prelude.{
  ℕ, zero, suc, String, Bool, true, false, not, Option, none, some, List, ◌∷◌, ◌++◌, if◌then◌else◌,
  Bytes, length, is_nil, Result, Check, reject, or_fail, check_all, codes, [], nat_eq, string_eq,
  bool_eq, list_eq, pair_eq, ◌>>◌,
}
use harness_trajectory_bench.Hex.{Sha256, hex_encode, hex_decode}
use harness_trajectory_bench.Evidence.Raw.{valid_hash, bytes_or_none}

-- The order of Go's strings. It is by bytes, and so that of the code points.
abbrev pub less_string : String → String → Bool
less_string a b = elim (String.compare a b) [ lt ↦ true | eq ↦ false | gt ↦ false ]

abbrev pub insert_sorted : String → List String → List String
insert_sorted a [] = a ∷ []
insert_sorted a (b ∷ rest) =
    let later = insert_sorted a rest in if less_string b a then b ∷ later else a ∷ b ∷ rest

-- `sort.Strings`
unfoldable pub sort_strings : List String → List String
sort_strings [] = []
sort_strings (a ∷ rest) = insert_sorted a (sort_strings rest)

abbrev pub leaf_bytes : String → Bytes
leaf_bytes s = bytes_or_none (hex_decode (codes s))

abbrev pub check_leaf : String → Check
check_leaf d = reject (not (valid_hash d)) "invalid merkle leaf"

module _ (hash : Sha256) where
  unfoldable pub parent : String → String → String
  parent left right = hex_encode (hash.sum (leaf_bytes left ++ leaf_bytes right))

  -- One level of the tree: a last leaf without a partner is paired with itself.
  unfoldable pub next_level : List String → List String
  next_level [] = []
  next_level (left ∷ []) = parent left left ∷ []
  next_level (left ∷ right ∷ rest) = parent left right ∷ next_level rest

  -- The loop, for so many levels at most.
  unfoldable pub reduce_levels : ℕ → List String → Option String
  reduce_levels zero leaves = none
  reduce_levels (suc fuel) [] = none
  reduce_levels (suc fuel) (root ∷ []) = some root
  reduce_levels (suc fuel) (left ∷ right ∷ rest) =
      reduce_levels fuel (next_level (left ∷ right ∷ rest))

  unfoldable pub compute_merkle_root : List String → Result String
  compute_merkle_root digests = do
    reject (is_nil digests) "merkle root needs leaves"
    check_all check_leaf digests
    or_fail (reduce_levels (length digests) (sort_strings digests)) "merkle levels exhausted"
