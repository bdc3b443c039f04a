-- ===== src/Prelude/Int.antt =====
-- Go's signed integers and times.
use Prim.Native.Nat.{ℕ, ◌%◌, ◌^◌}
use mathlib.Core.Bool.{Bool, true, false}
use mathlib.Core.Option.{Option, none, some}

-- `negsuc n` is -(n + 1).
pub data ℤ : Type 0 where
  pos : ℕ → ℤ
  negsuc : ℕ → ℤ

abbrev pub is_negative : ℤ → Bool
is_negative (pos n) = false
is_negative (negsuc n) = true

-- `time.Time`: `none` is the zero time, any other is its `UnixNano`.
abbrev pub Timestamp : Type 0
Timestamp = Option ℤ

-- `t.IsZero()`
abbrev pub is_zero_time : Timestamp → Bool
is_zero_time none = true
is_zero_time (some n) = false

-- Arithmetic on `uint64` wraps around.
abbrev pub uint64 : ℕ → ℕ
uint64 n = n % 2 ^ 64
