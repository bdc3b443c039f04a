-- ===== src/Hex/Digits.antt =====
-- Lower-case hexadecimal digits, and that an even number of them can be decoded.
use harness_trajectory_bench.Prelude.{
  ℕ, zero, suc, ◌+◌, ◌-◌, ◌*◌, ◌≤◌, ◌≡◌, refl, ◌↔◌, ◌⊎◌, inl, inr, true, ◌&&◌, Option, some, List,
  [], ◌∷◌, arith, leb, nat_eq, string_eq, bool_eq, list_eq, pair_eq, Bool-cases, Bytes, length, All,
}
use harness_trajectory_bench.Hex.{hex_value, hex_decode, pair_up, is_lower_hex, all_lower_hex}

-- The code point of a decimal digit or of one of the letters a to f.
abbrev pub LowerHex : ℕ → Type 0
LowerHex c = ((48 ≤ c) × (c ≤ 57)) ⊎ ((97 ≤ c) × (c ≤ 102))

is_lower_hex_iff : (c : ℕ) → (is_lower_hex c ≡ true) ↔ LowerHex c
unfolding is_lower_hex
is_lower_hex_iff c = (accepts, valid)
  where
    accepts : is_lower_hex c ≡ true → LowerHex c
    accepts e = elim (Bool-cases (leb 48 c && leb c 57)) [
      | inl x ↦ inl (ground arith, ground arith)
      | inr x ↦ inr (ground arith, ground arith)
    ]

    valid : LowerHex c → is_lower_hex c ≡ true
    valid (inl x) = ground (arith, x.0, x.1)
    valid (inr x) = ground (arith, x.0, x.1)

pub all_lower_hex_iff : (cs : List ℕ) → (all_lower_hex cs ≡ true) ↔ All LowerHex cs
unfolding all_lower_hex
all_lower_hex_iff [] = (λ e. tt, λ h. refl)
all_lower_hex_iff (c ∷ cs) = (
  λ e. ((is_lower_hex_iff c).0 (ground arith), (all_lower_hex_iff cs).0 (ground arith)),
  λ h. ground (arith, (is_lower_hex_iff c).1 h.0, (all_lower_hex_iff cs).1 h.1),
)

hex_value-LowerHex : (c : ℕ) → is_lower_hex c ≡ true → (n : ℕ) × (hex_value c ≡ some n)
unfolding hex_value is_lower_hex
hex_value-LowerHex c e = elim (Bool-cases (leb 48 c && leb c 57)) [
  | inl x ↦ (c - 48, ground arith)
  | inr x ↦ (c - 97 + 10, ground arith)
]

lower-cons :
    (c : ℕ) (cs : List ℕ)
    → all_lower_hex (c ∷ cs) ≡ true
    → (is_lower_hex c ≡ true) × (all_lower_hex cs ≡ true)
unfolding all_lower_hex
lower-cons c cs h = (ground arith, ground arith)

paired :
    (h l : Option ℕ) (t : Option Bytes) {x y : ℕ} {b : Bytes}
    → h ≡ some x
    → l ≡ some y
    → t ≡ some b
    → pair_up h l t ≡ some ((x * 16 + y) ∷ b)
unfolding pair_up
paired h l t p q f = rw (p, q, f) refl

pub hex_decode-LowerHex :
    (n : ℕ) (cs : List ℕ)
    → length cs ≡ 2 * n
    → all_lower_hex cs ≡ true
    → (b : Bytes) × (hex_decode cs ≡ some b)
unfolding hex_decode
hex_decode-LowerHex n [] e h = ([], refl)
hex_decode-LowerHex n (c ∷ []) e h = absurd (omega arith)
hex_decode-LowerHex zero (c ∷ d ∷ cs) e h = absurd (omega arith)
hex_decode-LowerHex (suc n) (c ∷ d ∷ cs) e h =
    let (first, rest) = lower-cons c (d ∷ cs) h in
    let (second, later) = lower-cons d cs rest in
    let (x, p) = hex_value-LowerHex c first in
    let (y, q) = hex_value-LowerHex d second in
    let (b, f) = hex_decode-LowerHex n cs (omega arith) later in
    ((x * 16 + y) ∷ b, paired (hex_value c) (hex_value d) (hex_decode cs) p q f)
