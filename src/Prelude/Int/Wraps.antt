-- ===== src/Prelude/Int/Wraps.antt =====
-- What a conversion to int16 or int32 keeps of a natural number, said without the conversion.
use Prim.Native.Nat.{ℕ, suc, ◌+◌, ◌*◌, ◌/◌, ◌%◌, ◌^◌, ◌<◌}
use mathlib.Core.Path.{◌≡◌}
use mathlib.Core.Logic.{inl, inr}
use native.Mathlib.Omega.{arith}
use bufstream_operator.Prelude.Tests.{ltb, Bool-cases}
use bufstream_operator.Prelude.Int.{ℤ, pos, negsuc, int16, int32}

-- `z` is in the range from -half to half, which it does not reach, and differs from `n` by a
-- multiple of 2 * half.
abbrev pub Wraps : ℕ → ℕ → ℤ → Type 0
Wraps half n (pos a) = (a < half) × (k : ℕ) × (n ≡ a + k * (2 * half))
Wraps half n (negsuc a) = (a < half) × (k : ℕ) × (n + suc a ≡ k * (2 * half))

pub int16-Wraps : (n : ℕ) → Wraps (2 ^ 15) n (int16 (pos n))
int16-Wraps n = elim (Bool-cases (ltb (n % 2 ^ 16) (2 ^ 15))) [
  | inl y ↦ rw y (ground (arith, y), n / 2 ^ 16, omega arith)
  | inr y ↦ rw y (ground (arith, y), suc (n / 2 ^ 16), ground (arith, y))
]

pub int32-Wraps : (n : ℕ) → Wraps (2 ^ 31) n (int32 (pos n))
int32-Wraps n = elim (Bool-cases (ltb (n % 2 ^ 32) (2 ^ 31))) [
  | inl y ↦ rw y (ground (arith, y), n / 2 ^ 32, omega arith)
  | inr y ↦ rw y (ground (arith, y), suc (n / 2 ^ 32), ground (arith, y))
]
