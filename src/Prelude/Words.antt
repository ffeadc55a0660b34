-- ===== src/Prelude/Words.antt =====
-- Go's `int` and `int64`: 64-bit two's complement, with the wrap-around written out.
use Prim.Native.Nat.{ℕ, ◌-◌, ◌%◌, ◌^◌, ◌≤◌, ◌<◌}
use mathlib.Core.Path.{◌≡◌}
use native.Mathlib.Omega.{arith}
use trading_challenge.Prelude.Tests.{ltb, if◌then◌else◌}
use trading_challenge.Prelude.Int.{ℤ, pos, negsuc, pos_part, neg_part, ◌+ℤ◌, ◌-ℤ◌, ◌*ℤ◌, ◌<ℤ◌}

-- The integer that a 64-bit pattern stands for.
of_bits : ℕ → ℤ
of_bits m = if ltb m (2 ^ 63) then pos m else negsuc (2 ^ 64 - 1 - m)

unfoldable pub wrap64 : ℤ → ℤ
unfolding of_bits
wrap64 (pos n) = of_bits (n % 2 ^ 64)
wrap64 (negsuc n) = of_bits (2 ^ 64 - 1 - n % 2 ^ 64)

unfoldable pub add64 : ℤ → ℤ → ℤ
unfolding wrap64 ◌+ℤ◌
add64 a b = wrap64 (a +ℤ b)

unfoldable pub sub64 : ℤ → ℤ → ℤ
unfolding wrap64 ◌-ℤ◌
sub64 a b = wrap64 (a -ℤ b)

unfoldable pub mul64 : ℤ → ℤ → ℤ
unfolding wrap64 ◌*ℤ◌
mul64 a b = wrap64 (a *ℤ b)

-- The range of the type.
abbrev pub IsInt64 : ℤ → Type 0
IsInt64 a = (pos_part a < 2 ^ 63) × (neg_part a ≤ 2 ^ 63)

pub wrap64-eq_self : (a : ℤ) → IsInt64 a → wrap64 a ≡ a
unfolding wrap64
wrap64-eq_self (pos n) h = ground arith
wrap64-eq_self (negsuc n) h = ground arith

-- In range, the sum and the difference are exact.
pub add64_exact : (a b : ℤ) → IsInt64 (a +ℤ b) → add64 a b ≡ a +ℤ b
unfolding add64
add64_exact a b h = wrap64-eq_self (a +ℤ b) h

pub sub64_exact : (a b : ℤ) → IsInt64 (a -ℤ b) → sub64 a b ≡ a -ℤ b
unfolding sub64
sub64_exact a b h = wrap64-eq_self (a -ℤ b) h

-- Times in milliseconds, durations and the like: far from both ends of the range.
abbrev pub IsSmall : ℤ → Type 0
IsSmall a = (pos_part a ≤ 2 ^ 60) × (neg_part a ≤ 2 ^ 60)

pub add64_small : (a b : ℤ) → IsSmall a → IsSmall b → add64 a b ≡ a +ℤ b
unfolding ◌+ℤ◌
add64_small a b h k = add64_exact a b (ground arith)

pub sub64_small : (a b : ℤ) → IsSmall a → IsSmall b → sub64 a b ≡ a -ℤ b
unfolding ◌-ℤ◌
sub64_small a b h k = sub64_exact a b (ground arith)

-- A counter below some value of the type does not wrap when it is increased.
pub add64_one : (a b : ℤ) → IsInt64 a → IsInt64 b → a <ℤ b → add64 a (pos 1) ≡ a +ℤ pos 1
unfolding ◌+ℤ◌
add64_one a b h k l = add64_exact a (pos 1) (ground arith)

pub sub64_self : (a : ℤ) → sub64 a a ≡ pos 0
unfolding sub64
sub64_self (pos n) = ground arith
sub64_self (negsuc n) = ground arith
