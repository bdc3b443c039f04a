-- ===== src/Prelude/Texts.antt =====
-- Go strings as native texts; their bytes, and bytes as lower-case hexadecimal.
use Prim.Native.Nat.{ℕ, ◌+◌, ◌/◌, ◌%◌, ◌<◌}
use Prim.Native.Char.{code}
use Prim.Native.String.{String}
use mathlib.Core.Path.{◌≡◌}
use mathlib.Core.List.{List, [], ◌∷◌, ◌++◌}
use native.Mathlib.Omega.{arith}
use harness_trajectory_bench.Prelude.Tests.{ltb, if◌then◌else◌}
use harness_trajectory_bench.Prelude.Lists.{Bytes, length}

-- `range value` over a string: its code points.
abbrev pub codes : String → List ℕ
codes String.[] = []
codes (String.◌∷◌ c s) = code c ∷ codes s

-- The UTF-8 bytes of a code point.
unfoldable pub rune_bytes : ℕ → Bytes
rune_bytes c =
    if ltb c 0x80
    then c ∷ []
    else if ltb c 0x800
    then (0xc0 + c / 64) ∷ (0x80 + c % 64) ∷ []
    else if ltb c 0x10000
    then (0xe0 + c / 4096) ∷ (0x80 + c / 64 % 64) ∷ (0x80 + c % 64) ∷ []
    else (0xf0 + c / 262144) ∷ (0x80 + c / 4096 % 64) ∷ (0x80 + c / 64 % 64) ∷ (0x80 + c % 64) ∷ []

-- `[]byte(s)`
unfoldable pub utf8 : String → Bytes
unfolding rune_bytes
utf8 String.[] = []
utf8 (String.◌∷◌ c s) = rune_bytes (code c) ++ utf8 s

-- `len(s)`
unfoldable pub len : String → ℕ
unfolding utf8
len s = length (utf8 s)

pub rune_bytes-ascii : (c : ℕ) → c < 0x80 → rune_bytes c ≡ c ∷ []
unfolding rune_bytes
rune_bytes-ascii c h = ground arith
