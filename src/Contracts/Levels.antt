-- ===== src/Contracts/Levels.antt =====
-- The levels of observation and enforcement, strongest first, and their ranks.
use harness_trajectory_bench.Prelude.{
  ℕ, zero, suc, ◌≤◌, String, ◌≡◌, refl, sym, ap, ◌∙◌, subst, inl, inr, false, some, List, [], ◌∷◌,
  arith, if◌then◌else◌, ◌==◌, ==_iff, nat_eq, string_eq, bool_eq, list_eq, pair_eq, Bool-cases,
  get_elem?, ℤ, pos, negsuc, is_negative,
}
use harness_trajectory_bench.Contracts.Plan.{observation_rank, enforcement_rank, outranks}

abbrev pub observation_levels : List String
observation_levels =
    "complete" ∷ "conditional" ∷ "best_effort" ∷ "sampled" ∷ "aggregated" ∷ "unsupported" ∷ []

abbrev pub enforcement_levels : List String
enforcement_levels = "synchronous" ∷ "eventual" ∷ "audit_only" ∷ "unsupported" ∷ []

-- Level `a` stands in the list no later than level `b`.
pub record AtLeast (levels : List String) (a b : String) : Type 0 where
  pub left : ℕ
  pub right : ℕ
  pub left_at : get_elem? levels left ≡ some a
  pub right_at : get_elem? levels right ≡ some b
  pub in_order : left ≤ right

-- The rank is the place in the list.
abbrev pub Ranks : List String → (String → ℤ) → Type 0
Ranks levels rank =
    ((s : String)
      → is_negative (rank s) ≡ false
      → (i : ℕ) × (rank s ≡ pos i) × (get_elem? levels i ≡ some s))
    × ((s : String) (i : ℕ) → get_elem? levels i ≡ some s → rank s ≡ pos i)

module _ (levels : List String) (rank : String → ℤ) (ranks : Ranks levels rank) where
  pub outranks-AtLeast :
      (a b : String)
      → is_negative (rank a) ≡ false
      → is_negative (rank b) ≡ false
      → outranks (rank a) (rank b) ≡ false
      → AtLeast levels a b
  outranks-AtLeast a b va vb h =
      let (i, ei, ai) = ranks.0 a va in
      let (j, ej, bj) = ranks.0 b vb in
      record { left = i; right = j; left_at = ai; right_at = bj; in_order = ground (arith, ei, ej) }

  pub AtLeast-outranks : (a b : String) → AtLeast levels a b → outranks (rank a) (rank b) ≡ false
  AtLeast-outranks a b h =
      let le = h.in_order in
      rw (ranks.1 a h.left h.left_at, ranks.1 b h.right h.right_at) (ground arith)

-- A rank that is known, with its place in the list.
abbrev Placed : List String → String → ℤ → Type 0
Placed levels s rank = (i : ℕ) × (rank ≡ pos i) × (get_elem? levels i ≡ some s)

-- One test of the switch.
Placed-if :
    (levels : List String) (s level : String) (i : ℕ) (rest : ℤ)
    → get_elem? levels i ≡ some level
    → (is_negative rest ≡ false → Placed levels s rest)
    → is_negative (if s == level then pos i else rest) ≡ false
    → Placed levels s (if s == level then pos i else rest)
Placed-if levels s level i rest at f h = elim (Bool-cases (s == level)) [
  | inl e ↦ (i, rw e refl, at ∙ ap some (sym ((==_iff s level).0 e)))
  | inr e ↦ let (j, p, q) = f (ground arith) in (j, rw e p, q)
]

unknown :
    (levels : List String) (s : String)
    → is_negative (negsuc 0) ≡ false
    → Placed levels s (negsuc 0)
unknown levels s h = cc

observation_of :
    (s : String)
    → is_negative (observation_rank s) ≡ false
    → Placed observation_levels s (observation_rank s)
unfolding observation_rank
observation_of s =
    let test = Placed-if observation_levels s in
    test "complete" 0 _ refl (
      test "conditional" 1 _ refl (
        test "best_effort" 2 _ refl (
          test "sampled" 3 _ refl (
            test "aggregated" 4 _ refl
              (test "unsupported" 5 _ refl (unknown observation_levels s))))))

enforcement_of :
    (s : String)
    → is_negative (enforcement_rank s) ≡ false
    → Placed enforcement_levels s (enforcement_rank s)
unfolding enforcement_rank
enforcement_of s =
    let test = Placed-if enforcement_levels s in
    test "synchronous" 0 _ refl (
      test "eventual" 1 _ refl
        (test "audit_only" 2 _ refl (test "unsupported" 3 _ refl (unknown enforcement_levels s))))

ranked :
    (rank : String → ℤ) (s level : String) (i : ℕ)
    → some level ≡ some s
    → rank level ≡ pos i
    → rank s ≡ pos i
ranked rank s level i e h = subst (λ t. rank t ≡ pos i) (cc e) h

observation_at :
    (s : String) (i : ℕ) → get_elem? observation_levels i ≡ some s → observation_rank s ≡ pos i
unfolding observation_rank
observation_at s zero h = ranked observation_rank s "complete" 0 h refl
observation_at s (suc zero) h = ranked observation_rank s "conditional" 1 h refl
observation_at s (suc (suc zero)) h = ranked observation_rank s "best_effort" 2 h refl
observation_at s (suc (suc (suc zero))) h = ranked observation_rank s "sampled" 3 h refl
observation_at s (suc (suc (suc (suc zero)))) h = ranked observation_rank s "aggregated" 4 h refl
observation_at s (suc (suc (suc (suc (suc zero))))) h =
    ranked observation_rank s "unsupported" 5 h refl
observation_at s (suc (suc (suc (suc (suc (suc i)))))) h = cc

enforcement_at :
    (s : String) (i : ℕ) → get_elem? enforcement_levels i ≡ some s → enforcement_rank s ≡ pos i
unfolding enforcement_rank
enforcement_at s zero h = ranked enforcement_rank s "synchronous" 0 h refl
enforcement_at s (suc zero) h = ranked enforcement_rank s "eventual" 1 h refl
enforcement_at s (suc (suc zero)) h = ranked enforcement_rank s "audit_only" 2 h refl
enforcement_at s (suc (suc (suc zero))) h = ranked enforcement_rank s "unsupported" 3 h refl
enforcement_at s (suc (suc (suc (suc i)))) h = cc

pub observation-Ranks : Ranks observation_levels observation_rank
observation-Ranks = (observation_of, observation_at)

pub enforcement-Ranks : Ranks enforcement_levels enforcement_rank
enforcement-Ranks = (enforcement_of, enforcement_at)
