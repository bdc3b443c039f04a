-- ===== src/Hex.antt =====
-- The standard library's `encoding/hex`, and `crypto/sha256` as a parameter.
pub mod Laws
pub mod Digits
pub mod Collides
use Prim.Native.Char.{Char}
use harness_trajectory_bench.Prelude.{
  ℕ, zero, suc, ◌+◌, ◌-◌, ◌*◌, ◌/◌, ◌%◌, ◌≤◌, ◌<◌, String, ◌≡◌, ◌≢◌, Bool, true, false, ◌&&◌, ◌||◌,
  List, [], ◌∷◌, ◌++◌, Option, none, some, Bytes, length, All, leb, if◌then◌else◌,
}

abbrev pub digit_chars : List Char
digit_chars =
    "0" ∷ "1" ∷ "2" ∷ "3" ∷ "4" ∷ "5" ∷ "6" ∷ "7" ∷ "8" ∷ "9" ∷ "a" ∷ "b" ∷ "c" ∷ "d" ∷ "e" ∷ "f"
    ∷ []

char_or : List Char → ℕ → Char
char_or [] n = "0"
char_or (c ∷ cs) zero = c
char_or (c ∷ cs) (suc n) = char_or cs n

unfoldable pub hex_digit : ℕ → Char
unfolding char_or
hex_digit = char_or digit_chars

-- `hex.EncodeToString`
unfoldable pub hex_encode : Bytes → String
hex_encode [] = String.[]
hex_encode (b ∷ bs) =
    String.◌∷◌ (hex_digit (b / 16)) (String.◌∷◌ (hex_digit (b % 16)) (hex_encode bs))

-- Both cases of the letters are digits to the decoder.
unfoldable pub hex_value : ℕ → Option ℕ
hex_value c =
    if leb b'0' c && leb c b'9'
    then some (c - b'0')
    else if leb b'a' c && leb c b'f'
    then some (c - b'a' + 10)
    else if leb b'A' c && leb c b'F'
    then some (c - b'A' + 10)
    else none

pair_up : Option ℕ → Option ℕ → Option Bytes → Option Bytes
pair_up (some h) (some l) (some bs) = some ((h * 16 + l) ∷ bs)
pair_up _ _ _ = none

-- `hex.DecodeString` over the code points of a text; an odd length is an error.
unfoldable pub hex_decode : List ℕ → Option Bytes
unfolding hex_value pair_up
hex_decode [] = some []
hex_decode (h ∷ []) = none
hex_decode (h ∷ l ∷ cs) = pair_up (hex_value h) (hex_value l) (hex_decode cs)

unfoldable pub is_lower_hex : ℕ → Bool
is_lower_hex r = (leb b'0' r && leb r b'9') || (leb b'a' r && leb r b'f')

unfoldable pub all_lower_hex : List ℕ → Bool
unfolding is_lower_hex
all_lower_hex [] = true
all_lower_hex (r ∷ rs) = is_lower_hex r && all_lower_hex rs

-- `sha256.Sum256`, of which the code relies on the size of a digest.
pub record Sha256 : Type 0 where
  pub sum : Bytes → Bytes
  pub size : (b : Bytes) → length (sum b) ≡ 32
  pub in_range : (b : Bytes) → All (λ x. x < 256) (sum b)
