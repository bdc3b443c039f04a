-- ===== src/Hex/Collides.antt =====
-- Two lists of byte strings that are hashed in turn, and where the hash does not tell them apart.
use harness_trajectory_bench.Prelude.{
  ◌≡◌, ◌≢◌, ◌⊎◌, inl, inr, refl, List, [], ◌∷◌, ◌++◌, map, arith, ◌==◌, ==_iff, nat_eq, list_eq,
  Bool-cases, Bytes, length,
}
use harness_trajectory_bench.Hex.{Sha256}

-- At some place that both lists have, their inputs differ and the sums of these are the same.
abbrev pub Collides : Sha256 → List Bytes → List Bytes → Type 0
Collides hash [] ys = ⊥
Collides hash (a ∷ xs) [] = ⊥
Collides hash (a ∷ xs) (b ∷ ys) = ((a ≢ b) × (hash.sum a ≡ hash.sum b)) ⊎ Collides hash xs ys

module _ (hash : Sha256) where
  pub Collides-left :
      (xs ys us vs : List Bytes) → Collides hash xs ys → Collides hash (xs ++ us) (ys ++ vs)
  Collides-left [] ys us vs c = absurd c
  Collides-left (a ∷ xs) [] us vs c = absurd c
  Collides-left (a ∷ xs) (b ∷ ys) us vs (inl c) = inl c
  Collides-left (a ∷ xs) (b ∷ ys) us vs (inr c) = inr (Collides-left xs ys us vs c)

  pub Collides-right :
      (xs ys us vs : List Bytes)
      → length xs ≡ length ys
      → Collides hash us vs
      → Collides hash (xs ++ us) (ys ++ vs)
  Collides-right [] [] us vs n c = c
  Collides-right [] (b ∷ ys) us vs n c = absurd (omega arith)
  Collides-right (a ∷ xs) [] us vs n c = absurd (omega arith)
  Collides-right (a ∷ xs) (b ∷ ys) us vs n c = inr (Collides-right xs ys us vs (omega arith) c)

  -- Two inputs with one sum are equal, or else they differ and have one sum.
  pub sum_binds :
      (a b : Bytes) → hash.sum a ≡ hash.sum b → (a ≡ b) ⊎ ((a ≢ b) × (hash.sum a ≡ hash.sum b))
  sum_binds a b e = elim (Bool-cases (a == b)) [
    | inl s ↦ inl ((==_iff a b).0 s)
    | inr d ↦ inr (λ s. absurd (cc (d, (==_iff a b).1 s)), e)
  ]

  pub sums_bind :
      (xs ys : List Bytes) → map hash.sum xs ≡ map hash.sum ys → (xs ≡ ys) ⊎ Collides hash xs ys
  sums_bind [] [] e = inl refl
  sums_bind [] (b ∷ ys) e = cc
  sums_bind (a ∷ xs) [] e = cc
  sums_bind (a ∷ xs) (b ∷ ys) e = elim (sum_binds a b (cc e)) [
    | inr c ↦ inr (inl c)
    | inl same ↦ elim (sums_bind xs ys (cc e)) [
      | inr c ↦ inr (inr c)
      | inl rest ↦ inl (cc (same, rest))
    ]
  ]
