-- ===== src/Hex/Laws.antt =====
-- Decoding inverts encoding, and an encoded digest is lower-case hexadecimal of the right length.
use Prim.Native.Char.{code}
use harness_trajectory_bench.Prelude.{
  nat_eq, ℕ, ◌+◌, ◌*◌, ◌/◌, ◌%◌, ◌<◌, ◌≡◌, refl, Bool, true, false, List, [], ◌∷◌, Option, none,
  some, Bytes, length, All, arith, codes, ap, ltb, ◌==◌, holds_below, holds_below_sound, ==_iff,
  utf8, len, rune_bytes, rune_bytes-ascii, ltb→lt,
}
use harness_trajectory_bench.Hex.{
  hex_digit, hex_encode, hex_value, hex_decode, pair_up, is_lower_hex, all_lower_hex,
}

abbrev is_value : Option ℕ → ℕ → Bool
is_value none n = false
is_value (some m) n = m == n

is_value_lem : (o : Option ℕ) (n : ℕ) → is_value o n ≡ true → o ≡ some n
is_value_lem none n h = cc
is_value_lem (some m) n h = ap some ((==_iff m n).0 h)

values_table : holds_below (λ n. is_value (hex_value (code (hex_digit n))) n) 16 ≡ true
unfolding holds_below hex_digit hex_value
values_table = refl

lower_table : holds_below (λ n. is_lower_hex (code (hex_digit n))) 16 ≡ true
unfolding holds_below hex_digit is_lower_hex
lower_table = refl

ascii_table : holds_below (λ n. ltb (code (hex_digit n)) 0x80) 16 ≡ true
unfolding holds_below hex_digit
ascii_table = refl

module _ (n : ℕ) (h : n < 16) where
  hex_value-hex_digit : hex_value (code (hex_digit n)) ≡ some n
  hex_value-hex_digit = is_value_lem _ n (holds_below_sound _ 16 n h values_table)

  hex_digit-lower : is_lower_hex (code (hex_digit n)) ≡ true
  hex_digit-lower = holds_below_sound _ 16 n h lower_table

  hex_digit-ascii : rune_bytes (code (hex_digit n)) ≡ code (hex_digit n) ∷ []
  hex_digit-ascii = rune_bytes-ascii _ (ltb→lt _ _ (holds_below_sound _ 16 n h ascii_table))

-- Decoding the encoding of bytes gives the bytes.
pub hex_decode-hex_encode :
    (bs : Bytes) → All (λ x. x < 256) bs → hex_decode (codes (hex_encode bs)) ≡ some bs
unfolding hex_encode hex_decode
hex_decode-hex_encode [] h = refl
hex_decode-hex_encode (b ∷ bs) h =
    rw
      (
        hex_value-hex_digit (b / 16) (omega arith),
        hex_value-hex_digit (b % 16) (omega arith),
        hex_decode-hex_encode bs h.1,
      )
      (ap (λ (x : ℕ). some (x ∷ bs)) (omega arith))

pub hex_encode-injective :
    (a b : Bytes)
    → All (λ x. x < 256) a
    → All (λ x. x < 256) b
    → hex_encode a ≡ hex_encode b
    → a ≡ b
hex_encode-injective a b ha hb e =
    cc (hex_decode-hex_encode a ha, hex_decode-hex_encode b hb, ap (λ s. hex_decode (codes s)) e)

pub all_lower_hex-hex_encode :
    (bs : Bytes) → All (λ x. x < 256) bs → all_lower_hex (codes (hex_encode bs)) ≡ true
unfolding hex_encode all_lower_hex
all_lower_hex-hex_encode [] h = refl
all_lower_hex-hex_encode (b ∷ bs) h =
    rw (hex_digit-lower (b / 16) (omega arith), hex_digit-lower (b % 16) (omega arith))
      (all_lower_hex-hex_encode bs h.1)

pub len-hex_encode : (bs : Bytes) → All (λ x. x < 256) bs → len (hex_encode bs) ≡ 2 * length bs
unfolding hex_encode len utf8
len-hex_encode [] h = refl
len-hex_encode (b ∷ bs) h =
    rw (hex_digit-ascii (b / 16) (omega arith), hex_digit-ascii (b % 16) (omega arith))
      (omega (arith, len-hex_encode bs h.1))

module _ (bs : Bytes) where
  pair_up_inv :
      (h l : Option ℕ) (t : Option Bytes)
      → pair_up h l t ≡ some bs
      → (b : ℕ) × (r : Bytes) × (t ≡ some r) × (bs ≡ b ∷ r)
  unfolding pair_up
  pair_up_inv (some h) (some l) (some r) e = (h * 16 + l, r, refl, cc)
  pair_up_inv (some h) (some l) none e = cc
  pair_up_inv (some h) none t e = cc
  pair_up_inv none l t e = cc

-- A decoded text has two digits for each byte.
pub length-hex_decode :
    (cs : List ℕ) (bs : Bytes) → hex_decode cs ≡ some bs → length cs ≡ 2 * length bs
unfolding hex_decode
length-hex_decode [] [] h = omega arith
length-hex_decode [] (b ∷ bs) h = cc
length-hex_decode (c ∷ []) bs h = cc
length-hex_decode (c ∷ d ∷ cs) bs h =
    let (b, r, e, f) = pair_up_inv bs (hex_value c) (hex_value d) (hex_decode cs) h in
    rw f (omega (arith, length-hex_decode cs r e))
