-- ===== src/Prelude/Int.antt =====
-- Integers over the native numbers, and the numbers of the source: `number | bigint`.
use Prim.Native.Nat.{ℕ, ◌-◌, ◌%◌, ◌^◌, ◌<◌}
use mathlib.Core.Path.{◌≡◌}
use native.Mathlib.Omega.{arith}
use uurc_web_new.Prelude.Tests.{ltb, if◌then◌else◌}
use uurc_web_new.Prelude.Errors.{Outcome, ok, throw, range_error}

-- `negsuc n` is -(n + 1).
pub data ℤ : Type 0 where
  pos : ℕ → ℤ
  negsuc : ℕ → ℤ

-- The int32 with the bits of `n` modulo 2 ^ 32, as the bitwise operators return it.
unfoldable pub to_int32 : ℕ → ℤ
to_int32 n = let r = n % 2 ^ 32 in if ltb r (2 ^ 31) then pos r else negsuc (2 ^ 32 - r - 1)

pub to_int32_small : (n : ℕ) → n < 2 ^ 31 → to_int32 n ≡ pos n
unfolding to_int32
to_int32_small n h = ground arith

-- A `number | bigint`: `inexact` is NaN, an infinity or a number with a fraction.
pub data Numeric : Type 0 where
  number : ℤ → Numeric
  bigint : ℤ → Numeric
  inexact : Numeric

-- `BigInt(value)`
abbrev pub to_bigint : Numeric → Outcome ℤ
to_bigint (number z) = ok z
to_bigint (bigint z) = ok z
to_bigint inexact = throw range_error
