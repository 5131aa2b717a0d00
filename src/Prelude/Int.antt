-- ===== src/Prelude/Int.antt =====
-- Go's signed integers over the native numbers: the value of an int32 or int16 is a ℤ, and a
-- conversion to a narrower type wraps.
pub mod Wraps
use Prim.Native.Nat.{ℕ, suc, ◌+◌, ◌-◌, ◌%◌, ◌^◌, ◌≤◌}
use mathlib.Core.Bool.{Bool}
use bufstream_operator.Prelude.Tests.{ltb, ◌==◌, if◌then◌else◌}

-- `negsuc n` is -(n + 1).
pub data ℤ : Type 0 where
  pos : ℕ → ℤ
  negsuc : ℕ → ℤ

abbrev pub pos_part : ℤ → ℕ
pos_part (pos n) = n
pos_part (negsuc n) = 0

abbrev pub neg_part : ℤ → ℕ
neg_part (pos n) = 0
neg_part (negsuc n) = suc n

infix 50 ◌≤ℤ◌ ◌<ℤ◌ ◌==ℤ◌
abbrev pub ◌≤ℤ◌ : ℤ → ℤ → Type 0
a ≤ℤ b = pos_part a + neg_part b ≤ pos_part b + neg_part a

abbrev pub ◌<ℤ◌ : ℤ → ℤ → Type 0
a <ℤ b = suc (pos_part a + neg_part b) ≤ pos_part b + neg_part a

abbrev pub ltb_ℤ : ℤ → ℤ → Bool
ltb_ℤ a b = ltb (pos_part a + neg_part b) (pos_part b + neg_part a)

abbrev pub ◌==ℤ◌ : ℤ → ℤ → Bool
a ==ℤ b = pos_part a + neg_part b == pos_part b + neg_part a

-- The integer that a bit pattern below 2 ^ (w + 1) stands for.
abbrev pub signed : ℕ → ℕ → ℤ
signed w n = if ltb n (2 ^ w) then pos n else negsuc (2 ^ (w + 1) - n - 1)

-- The bit pattern, of w + 1 bits, of an integer.
abbrev pub pattern_of : ℕ → ℤ → ℕ
pattern_of w (pos n) = n % 2 ^ (w + 1)
pattern_of w (negsuc n) = 2 ^ (w + 1) - 1 - n % 2 ^ (w + 1)

-- Go's conversions int16(x) and int32(x).
abbrev pub int16 : ℤ → ℤ
int16 x = signed 15 (pattern_of 15 x)

abbrev pub int32 : ℤ → ℤ
int32 x = signed 31 (pattern_of 31 x)
