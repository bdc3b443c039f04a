-- ===== src/Evidence/Bytes.antt =====
-- The encodings of a frame's fields can be read back: equal encodings, whatever follows, come from
-- equal fields.
use mathlib.Core.List.{append_assoc}
use text.Mathlib.TextEquality.{Char-path}
use Prim.Native.Char.{code}
use harness_trajectory_bench.Prelude.{
  ℕ, ◌^◌, ◌<◌, String, ◌≡◌, refl, sym, ap, ◌∙◌, ◌≢◌, Option, none, some, [], ◌∷◌, ◌++◌, arith,
  nat_eq, string_eq, bool_eq, list_eq, pair_eq, Bytes, length, append_inj, ok, rune_bytes, utf8, ℤ,
  pos, negsuc,
}
use harness_trajectory_bench.Evidence.Raw.{
  be32, be64, write_bytes, write_string, write_optional, wall_bits, uint64_of, WallTime,
}

abbrev head_of : Bytes → ℕ
head_of [] = 0
head_of (b ∷ bs) = b

rune_bytes-injective :
    (c d : ℕ) (s t : Bytes) → rune_bytes c ++ s ≡ rune_bytes d ++ t → (c ≡ d) × (s ≡ t)
unfolding rune_bytes
rune_bytes-injective c d s t e = ground arith

be32-injective :
    (a b : ℕ) (s t : Bytes)
    → a < 2 ^ 32
    → b < 2 ^ 32
    → be32 a ++ s ≡ be32 b ++ t
    → (a ≡ b) × (s ≡ t)
unfolding be32
be32-injective a b s t ha hb e = ground arith

pub be64-injective :
    (a b : ℕ) (s t : Bytes)
    → a < 2 ^ 64
    → b < 2 ^ 64
    → be64 a ++ s ≡ be64 b ++ t
    → (a ≡ b) × (s ≡ t)
unfolding be64
be64-injective a b s t ha hb e = ground arith

rune_bytes-nonempty : (c : ℕ) (s : Bytes) → rune_bytes c ++ s ≢ []
unfolding rune_bytes
rune_bytes-nonempty c s = ground arith

pub utf8-injective : (s t : String) → utf8 s ≡ utf8 t → s ≡ t
unfolding utf8
utf8-injective String.[] String.[] e = refl
utf8-injective String.[] (String.◌∷◌ d t) e = absurd (rune_bytes-nonempty (code d) (utf8 t) (sym e))
utf8-injective (String.◌∷◌ c s) String.[] e = absurd (rune_bytes-nonempty (code c) (utf8 s) e)
utf8-injective (String.◌∷◌ c s) (String.◌∷◌ d t) e =
    let (p, q) = rune_bytes-injective (code c) (code d) (utf8 s) (utf8 t) e in
    cc (Char-path c d p, utf8-injective s t q)

pub write_bytes-injective :
    (a b s t : Bytes) {x y : Bytes}
    → write_bytes a ≡ ok x
    → write_bytes b ≡ ok y
    → x ++ s ≡ y ++ t
    → (a ≡ b) × (s ≡ t)
unfolding write_bytes
write_bytes-injective a b s t {x} {y} p q e =
    let ha : (length a < 2 ^ 32) × (x ≡ be32 (length a) ++ a) = ground arith in
    let hb : (length b < 2 ^ 32) × (y ≡ be32 (length b) ++ b) = ground arith in
    let f : be32 (length a) ++ (a ++ s) ≡ be32 (length b) ++ (b ++ t) =
      sym (append_assoc (be32 (length a)) a s)
      ∙ ap (λ l. l ++ s) (sym ha.1)
      ∙ e
      ∙ ap (λ l. l ++ t) hb.1
      ∙ append_assoc (be32 (length b)) b t in
    let (n, rest) = be32-injective (length a) (length b) (a ++ s) (b ++ t) ha.0 hb.0 f in
    append_inj a b s t n rest

pub write_string-injective :
    (a b : String) (s t : Bytes) {x y : Bytes}
    → write_string a ≡ ok x
    → write_string b ≡ ok y
    → x ++ s ≡ y ++ t
    → (a ≡ b) × (s ≡ t)
unfolding write_string
write_string-injective a b s t p q e =
    let (u, v) = write_bytes-injective (utf8 a) (utf8 b) s t p q e in (utf8-injective a b u, v)

abbrev pub Fits64 : Option ℕ → Type 0
Fits64 none = Unit
Fits64 (some v) = v < 2 ^ 64

pub write_optional-injective :
    (a b : Option ℕ) (s t : Bytes)
    → Fits64 a
    → Fits64 b
    → write_optional a ++ s ≡ write_optional b ++ t
    → (a ≡ b) × (s ≡ t)
unfolding write_optional
write_optional-injective none none s t ha hb e = (refl, cc)
write_optional-injective none (some b) s t ha hb e = absurd (omega (arith, ap head_of e))
write_optional-injective (some a) none s t ha hb e = absurd (omega (arith, ap head_of e))
write_optional-injective (some a) (some b) s t ha hb e =
    let (p, q) = be64-injective a b s t ha hb (cc e) in (ap some p, q)

-- An instant that an int64 holds: outside of these, `UnixNano` is not defined.
abbrev pub FitsInt64 : ℤ → Type 0
FitsInt64 (pos n) = n < 2 ^ 63
FitsInt64 (negsuc n) = n < 2 ^ 63

abbrev pub InstantFits : Option WallTime → Type 0
InstantFits none = Unit
InstantFits (some t) = FitsInt64 t.instant

-- The instant of a wall time, without the zone.
abbrev pub instant_of : Option WallTime → Option ℤ
instant_of none = none
instant_of (some t) = some t.instant

uint64_of-injective : (a b : ℤ) → FitsInt64 a → FitsInt64 b → uint64_of a ≡ uint64_of b → a ≡ b
uint64_of-injective (pos a) (pos b) ha hb e = ap pos (omega arith)
uint64_of-injective (pos a) (negsuc b) ha hb e = absurd (omega arith)
uint64_of-injective (negsuc a) (pos b) ha hb e = absurd (omega arith)
uint64_of-injective (negsuc a) (negsuc b) ha hb e = ap negsuc (omega arith)

pub wall_bits-injective :
    (a b : Option WallTime)
    → InstantFits a
    → InstantFits b
    → wall_bits a ≡ wall_bits b
    → instant_of a ≡ instant_of b
wall_bits-injective none none ha hb e = refl
wall_bits-injective none (some b) ha hb e = cc
wall_bits-injective (some a) none ha hb e = cc
wall_bits-injective (some a) (some b) ha hb e =
    ap some (uint64_of-injective a.instant b.instant ha hb (cc e))

uint64_of-bound : (t : ℤ) → uint64_of t < 2 ^ 64
uint64_of-bound (pos n) = omega arith
uint64_of-bound (negsuc n) = omega arith

pub Fits64-wall_bits : (t : Option WallTime) → Fits64 (wall_bits t)
Fits64-wall_bits none = tt
Fits64-wall_bits (some t) = uint64_of-bound t.instant
