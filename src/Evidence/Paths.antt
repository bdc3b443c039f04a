-- ===== src/Evidence/Paths.antt =====
-- Two tests of `validArtifactPath` of internal/evidence/raw.go that fail: a prefix and a character.
use harness_trajectory_bench.Prelude.{
  Bool-cases, inl, inr, ℕ, String, ◌≡◌, refl, ◌≢◌, ◌↔◌, false, List, [], ◌∷◌, arith, ==_iff, nat_eq,
  string_eq, bool_eq, list_eq, pair_eq, All, ==_eq-false, contains,
}
use Prim.Native.String
use text.Mathlib.Text.{starts_with}
use text.Mathlib.TextEquality.{starts_with_iff}

pub starts_with-false :
    (s t : String) → (starts_with s t ≡ false) ↔ ((rest : String) → String.◌++◌ t rest ≢ s)
starts_with-false s t = (
  λ e rest z. absurd (ground (arith, (starts_with_iff s t).1 (rest, z))),
  λ h. elim (Bool-cases (starts_with s t)) [
    | inl e ↦ let (rest, z) = (starts_with_iff s t).0 e in absurd (h rest z)
    | inr e ↦ e
  ],
)

pub contains-false : (xs : List ℕ) (n : ℕ) → (contains xs n ≡ false) ↔ All (λ x. x ≢ n) xs
unfolding contains
contains-false [] n = (λ e. tt, λ h. refl)
contains-false (x ∷ xs) n = (
  λ e. (λ z. absurd (ground (arith, (==_iff x n).1 z)), (contains-false xs n).0 (ground arith)),
  λ h. ground (arith, ==_eq-false x n h.0, (contains-false xs n).1 h.1),
)
