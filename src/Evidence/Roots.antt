-- ===== src/Evidence/Roots.antt =====
-- The Merkle root of internal/evidence/raw.go: it exists, and it binds its leaves.
use harness_trajectory_bench.Prelude.{
  subst, ℕ, zero, suc, ◌+◌, ◌≤◌, ◌<◌, String, ◌≡◌, refl, sym, ap, ◌∙◌, ◌⊎◌, inl, inr, true, not,
  some, List, ◌∷◌, ◌++◌, map, arith, Bool-cases, Bytes, length, is_nil, append_inj, All, ok, pass,
  reject, check_all, check_all-All, >>-eq-ok, reject-eq-pass, or_fail-eq-ok, [], nat_eq, string_eq,
  bool_eq, list_eq, pair_eq,
}
use harness_trajectory_bench.Hex.{Sha256}
use harness_trajectory_bench.Hex.Collides.{Collides, Collides-left, Collides-right, sums_bind}
use harness_trajectory_bench.Hex.Laws.{hex_decode-hex_encode}
use harness_trajectory_bench.Evidence.Chain.{length-decoded}
use harness_trajectory_bench.Evidence.Raw.{valid_hash, bytes_or_none}
use harness_trajectory_bench.Evidence.Merkle.{
  less_string, insert_sorted, sort_strings, leaf_bytes, parent, next_level, reduce_levels,
  check_leaf, compute_merkle_root,
}

length-insert_sorted : (a : String) (xs : List String) → length (insert_sorted a xs) ≡ length xs + 1
length-insert_sorted a [] = refl
length-insert_sorted a (b ∷ rest) = ground (arith, length-insert_sorted a rest)

length-sort_strings : (xs : List String) → length (sort_strings xs) ≡ length xs
unfolding sort_strings
length-sort_strings [] = refl
length-sort_strings (a ∷ rest) =
    omega (arith, length-insert_sorted a (sort_strings rest), length-sort_strings rest)

some-injective {ℓ} : {A : Type ℓ} {a b : A} → some a ≡ some b → a ≡ b
some-injective {a = a} e = cc e

module _ (P : String → Type 0) where
  All-insert_sorted : (a : String) (xs : List String) → P a → All P xs → All P (insert_sorted a xs)
  All-insert_sorted a [] p h = (p, tt)
  All-insert_sorted a (b ∷ rest) p h = elim (Bool-cases (less_string b a)) [
    | inl e ↦ rw e (h.0, All-insert_sorted a rest p h.1)
    | inr e ↦ rw e (p, h)
  ]

  All-sort_strings : (xs : List String) → All P xs → All P (sort_strings xs)
  unfolding sort_strings
  All-sort_strings [] h = tt
  All-sort_strings (a ∷ rest) h =
      All-insert_sorted a (sort_strings rest) h.0 (All-sort_strings rest h.1)

abbrev Valid : String → Type 0
Valid s = valid_hash s ≡ true

Valid-check_all : (xs : List String) → All Valid xs → check_all check_leaf xs ≡ pass
Valid-check_all [] h = refl
Valid-check_all (x ∷ xs) h = rw h.0 (Valid-check_all xs h.1)

-- What is hashed for one level of the tree: each two neighbours, and a last leaf twice.
abbrev pub pair_inputs : List Bytes → List Bytes
pair_inputs [] = []
pair_inputs (l ∷ []) = (l ++ l) ∷ []
pair_inputs (l ∷ r ∷ rest) = (l ++ r) ∷ pair_inputs rest

-- What is hashed in turn over so many levels, from the leaves up.
abbrev pub tree_inputs : Sha256 → ℕ → List Bytes → List Bytes
tree_inputs hash zero level = []
tree_inputs hash (suc n) [] = []
tree_inputs hash (suc n) (root ∷ []) = []
tree_inputs hash (suc n) (l ∷ r ∷ rest) =
    pair_inputs (l ∷ r ∷ rest) ++ tree_inputs hash n (map hash.sum (pair_inputs (l ∷ r ∷ rest)))

length-pair_inputs :
    (xs ys : List Bytes) → length xs ≡ length ys → length (pair_inputs xs) ≡ length (pair_inputs ys)
length-pair_inputs [] [] n = refl
length-pair_inputs [] (u ∷ ys) n = absurd (omega arith)
length-pair_inputs (l ∷ xs) [] n = absurd (omega arith)
length-pair_inputs (l ∷ []) (u ∷ v ∷ ys) n = absurd (omega arith)
length-pair_inputs (l ∷ r ∷ xs) (u ∷ []) n = absurd (omega arith)
length-pair_inputs (l ∷ []) (u ∷ []) n = refl
length-pair_inputs (l ∷ r ∷ xs) (u ∷ v ∷ ys) n = ap suc (length-pair_inputs xs ys (omega arith))

length-leaves : (xs : List String) → length (map leaf_bytes xs) ≡ length xs
length-leaves [] = refl
length-leaves (x ∷ xs) = ap suc (length-leaves xs)

module _ (hash : Sha256) where
  -- The same leaves, or a place in the two trees where the hash does not tell them apart.
  abbrev SameLeaves : ℕ → List String → List String → Type 0
  SameLeaves fuel xs ys =
      (map leaf_bytes xs ≡ map leaf_bytes ys)
      ⊎ Collides hash (tree_inputs hash fuel (map leaf_bytes xs))
          (tree_inputs hash fuel (map leaf_bytes ys))

  abbrev Sized : String → Type 0
  Sized s = length (leaf_bytes s) ≡ 32

  leaf_bytes-parent :
      (left right : String)
      → leaf_bytes (parent hash left right) ≡ hash.sum (leaf_bytes left ++ leaf_bytes right)
  unfolding parent
  leaf_bytes-parent left right =
      ap bytes_or_none
        (hex_decode-hex_encode _ (hash.in_range (leaf_bytes left ++ leaf_bytes right)))

  next_level-Sized : (xs : List String) → All Sized (next_level hash xs)
  unfolding next_level
  next_level-Sized [] = tt
  next_level-Sized (left ∷ []) = (ap length (leaf_bytes-parent left left) ∙ hash.size _, tt)
  next_level-Sized (left ∷ right ∷ rest) =
      (ap length (leaf_bytes-parent left right) ∙ hash.size _, next_level-Sized rest)

  length-next_level : (xs : List String) → length (next_level hash xs) ≤ length xs
  unfolding next_level
  length-next_level [] = omega arith
  length-next_level (left ∷ []) = omega arith
  length-next_level (left ∷ right ∷ rest) = omega (arith, length-next_level rest)

  reduce_levels_total :
      (fuel : ℕ) (xs : List String)
      → length xs ≤ fuel
      → 0 < length xs
      → (root : String) × (reduce_levels hash fuel xs ≡ some root)
  unfolding reduce_levels next_level
  reduce_levels_total zero xs enough some_ = absurd (omega arith)
  reduce_levels_total (suc fuel) [] enough some_ = absurd (omega arith)
  reduce_levels_total (suc fuel) (root ∷ []) enough some_ = (root, refl)
  reduce_levels_total (suc fuel) (left ∷ right ∷ rest) enough some_ =
      reduce_levels_total fuel (next_level hash (left ∷ right ∷ rest))
        (omega (arith, length-next_level rest)) (omega arith)

  -- The Merkle root of a list of valid digests that is not empty is computed: the levels of the
  -- tree come to an end within as many rounds as there are digests.
  pub merkle_root_total :
      (digests : List String)
      → 0 < length digests
      → All (λ d. valid_hash d ≡ true) digests
      → (root : String) × (compute_merkle_root hash digests ≡ ok root)
  unfolding compute_merkle_root
  merkle_root_total [] some_ valid = absurd (omega arith)
  merkle_root_total (d ∷ digests) some_ valid =
      let (root, e) =
        reduce_levels_total (length (d ∷ digests)) (sort_strings (d ∷ digests))
          (omega (arith, length-sort_strings (d ∷ digests)))
          (omega (arith, length-sort_strings (d ∷ digests))) in
      (root, rw (Valid-check_all (d ∷ digests) valid, e) refl)

  next_level-sums :
      (xs : List String)
      → map leaf_bytes (next_level hash xs) ≡ map hash.sum (pair_inputs (map leaf_bytes xs))
  unfolding next_level
  next_level-sums [] = refl
  next_level-sums (l ∷ []) = ap (λ t. t ∷ []) (leaf_bytes-parent l l)
  next_level-sums (l ∷ r ∷ xs) = rw (leaf_bytes-parent l r, next_level-sums xs) refl

  pair_inputs-injective :
      (xs ys : List String)
      → length xs ≡ length ys
      → All Sized xs
      → All Sized ys
      → pair_inputs (map leaf_bytes xs) ≡ pair_inputs (map leaf_bytes ys)
      → map leaf_bytes xs ≡ map leaf_bytes ys
  pair_inputs-injective [] [] n sx sy e = refl
  pair_inputs-injective [] (u ∷ ys) n sx sy e = absurd (omega arith)
  pair_inputs-injective (l ∷ xs) [] n sx sy e = absurd (omega arith)
  pair_inputs-injective (l ∷ []) (u ∷ v ∷ ys) n sx sy e = absurd (omega arith)
  pair_inputs-injective (l ∷ r ∷ xs) (u ∷ []) n sx sy e = absurd (omega arith)
  pair_inputs-injective (l ∷ []) (u ∷ []) n sx sy e =
      let (p, q) =
        append_inj (leaf_bytes l) (leaf_bytes u) (leaf_bytes l) (leaf_bytes u) (sx.0 ∙ sym sy.0)
          (cc e) in
      ap (λ t. t ∷ []) p
  pair_inputs-injective (l ∷ r ∷ xs) (u ∷ v ∷ ys) n sx sy e =
      let (p, q) =
        append_inj (leaf_bytes l) (leaf_bytes u) (leaf_bytes r) (leaf_bytes v) (sx.0 ∙ sym sy.0)
          (cc e) in
      cc (p, q, pair_inputs-injective xs ys (omega arith) sx.1.1 sy.1.1 (cc e))

  same_length-next_level :
      (xs ys : List String)
      → length xs ≡ length ys
      → length (next_level hash xs) ≡ length (next_level hash ys)
  unfolding next_level
  same_length-next_level [] [] n = refl
  same_length-next_level [] (u ∷ ys) n = absurd (omega arith)
  same_length-next_level (l ∷ xs) [] n = absurd (omega arith)
  same_length-next_level (l ∷ []) (u ∷ v ∷ ys) n = absurd (omega arith)
  same_length-next_level (l ∷ r ∷ xs) (u ∷ []) n = absurd (omega arith)
  same_length-next_level (l ∷ []) (u ∷ []) n = refl
  same_length-next_level (l ∷ r ∷ xs) (u ∷ v ∷ ys) n =
      ap suc (same_length-next_level xs ys (omega arith))

  reduce_levels_binds :
      (fuel : ℕ) (xs ys : List String) (root : String)
      → length xs ≡ length ys
      → All Sized xs
      → All Sized ys
      → reduce_levels hash fuel xs ≡ some root
      → reduce_levels hash fuel ys ≡ some root
      → SameLeaves fuel xs ys
  unfolding reduce_levels
  reduce_levels_binds zero xs ys root n sx sy e f = absurd (ground (arith, e))
  reduce_levels_binds (suc fuel) [] ys root n sx sy e f = absurd (ground (arith, e))
  reduce_levels_binds (suc fuel) (l ∷ xs) [] root n sx sy e f = absurd (omega arith)
  reduce_levels_binds (suc fuel) (l ∷ []) (u ∷ v ∷ ys) root n sx sy e f = absurd (omega arith)
  reduce_levels_binds (suc fuel) (l ∷ r ∷ xs) (u ∷ []) root n sx sy e f = absurd (omega arith)
  reduce_levels_binds (suc fuel) (l ∷ []) (u ∷ []) root n sx sy e f =
      inl (ap (λ s. leaf_bytes s ∷ []) (some-injective (e ∙ sym f)))
  reduce_levels_binds (suc fuel) (l ∷ r ∷ xs) (u ∷ v ∷ ys) root n sx sy e f = go (
      reduce_levels_binds fuel (next_level hash xx) (next_level hash yy) root
        (same_length-next_level xx yy n) (next_level-Sized xx) (next_level-Sized yy) e f)
    where
      xx : List String
      xx = l ∷ r ∷ xs

      yy : List String
      yy = u ∷ v ∷ ys

      pairs : List String → List Bytes
      pairs zs = pair_inputs (map leaf_bytes zs)

      below :
          pairs xx ≡ pairs yy ⊎ Collides hash (pairs xx) (pairs yy) → SameLeaves (suc fuel) xx yy
      below (inl same) = inl (pair_inputs-injective xx yy n sx sy same)
      below (inr c) = inr (Collides-left hash (pairs xx) (pairs yy) _ _ c)

      go : SameLeaves fuel (next_level hash xx) (next_level hash yy) → SameLeaves (suc fuel) xx yy
      go (inl same) = below (
          sums_bind hash (pairs xx) (pairs yy)
            (sym (next_level-sums xx) ∙ same ∙ next_level-sums yy))
      go (inr c) = inr (
          Collides-right hash (pairs xx) (pairs yy) _ _
            (length-pair_inputs (map leaf_bytes xx) (map leaf_bytes yy)
              (length-leaves xx ∙ n ∙ sym (length-leaves yy)))
            (subst
              (λ (t : List Bytes × List Bytes).
                Collides hash (tree_inputs hash fuel t.0) (tree_inputs hash fuel t.1))
              (ap (λ t. (t, map leaf_bytes (next_level hash yy))) (next_level-sums xx)
                ∙ ap (λ t. (map hash.sum (pairs xx), t)) (next_level-sums yy))
              c))

  Valid-Sized : (xs : List String) → All Valid xs → All Sized xs
  Valid-Sized [] h = tt
  Valid-Sized (x ∷ xs) h = (length-decoded x h.0, Valid-Sized xs h.1)

  check_all-Valid : (xs : List String) → All (λ d. check_leaf d ≡ pass) xs → All Valid xs
  check_all-Valid [] h = tt
  check_all-Valid (x ∷ xs) h =
      (ground (arith, reject-eq-pass (not (valid_hash x)) _ h.0), check_all-Valid xs h.1)

  -- An accepted list of digests is valid, and its root is that of the sorted list.
  accepted :
      (xs : List String) (root : String)
      → compute_merkle_root hash xs ≡ ok root
      → All Valid xs × (reduce_levels hash (length xs) (sort_strings xs) ≡ some root)
  unfolding compute_merkle_root
  accepted xs root h =
      let (p, g) = >>-eq-ok (reject (is_nil xs) "merkle root needs leaves") _ h in
      let (q, f) = >>-eq-ok (check_all check_leaf xs) _ g in
      (check_all-Valid xs (check_all-All check_leaf xs q), or_fail-eq-ok _ _ f)

  -- If two lists of as many digests have the same Merkle root, then the digests of one are those
  -- of the other, once both are sorted, or else, at the same place of the two trees, the pairs of
  -- digests that are hashed differ and are hashed to one sum.
  pub merkle_root_binds :
      (xs ys : List String) (root : String)
      → length xs ≡ length ys
      → compute_merkle_root hash xs ≡ ok root
      → compute_merkle_root hash ys ≡ ok root
      → (map leaf_bytes (sort_strings xs) ≡ map leaf_bytes (sort_strings ys))
        ⊎ Collides hash
            (tree_inputs hash (length xs) (map leaf_bytes (sort_strings xs)))
            (tree_inputs hash (length ys) (map leaf_bytes (sort_strings ys)))
  merkle_root_binds xs ys root n e f =
      let (vx, rx) = accepted xs root e in
      let (vy, ry) = accepted ys root f in
      rw (sym n) (
        reduce_levels_binds (length xs) (sort_strings xs) (sort_strings ys) root
          (omega (arith, length-sort_strings xs, length-sort_strings ys, n))
          (Valid-Sized (sort_strings xs) (All-sort_strings Valid xs vx))
          (Valid-Sized (sort_strings ys) (All-sort_strings Valid ys vy)) rx (rw n ry))
