-- ===== src/Common/Integers.antt =====
-- Rust's signed integers, and whether one fits 32 or 64 bits.
use Prim.Native.Nat.{ℕ}
use mathlib.Core.Bool.{Bool}
use rustberg.Common.Tests.{ltb}

pub data ℤ : Type 0 where
  pos : ℕ → ℤ
  negsuc : ℕ → ℤ

-- `iN::try_from`, `half` being 2^(N-1).
abbrev pub fits : ℕ → ℤ → Bool
fits half (pos n) = ltb n half
fits half (negsuc n) = ltb n half

abbrev pub fits_i32 : ℤ → Bool
fits_i32 = fits 2147483648

abbrev pub fits_i64 : ℤ → Bool
fits_i64 = fits 9223372036854775808
