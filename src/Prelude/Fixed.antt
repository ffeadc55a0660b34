-- ===== src/Prelude/Fixed.antt =====
-- Values of the parameters of `Numbers`, for examples and for the proof that their laws can be met:
-- decimals and floats are integers that count ten-thousandths, with quotients rounded down.
use trading_challenge.Prelude.Numbers.{
  Decimal, ◌≼◌, flip, IsOrdered, IsField, Float64, Convert, greater_than,
}
use Prim.Native.Nat.{zero, suc, ℕ, ◌+◌, ◌-◌, ◌*◌, ◌/◌, ◌^◌, ◌≤◌, ◌<◌, compare, Ordering}
use mathlib.Core.Path.{◌≡◌, refl}
use mathlib.Core.Bool.{true, false}
use native.Mathlib.Omega.{arith}
use native.Mathlib.Nat.{mul-div_cancel_left, mul-le-mul_right}
use trading_challenge.Prelude.Tests.{◌==◌, ltb, if◌then◌else◌}
use trading_challenge.Prelude.Int.{
  ℤ, pos, negsuc, pos_part, neg_part, sub_ℕ, ◌+ℤ◌, ◌-ℤ◌, ◌*ℤ◌, ◌≤ℤ◌, floor_div, quot, lt_ℤ, le_ℤ,
  int_laws, +ℤ_parts, -ℤ_parts,
}

abbrev pub unit : ℕ
unit = 10_000

abbrev pub cmp_ℤ : ℤ → ℤ → Ordering
cmp_ℤ a b = compare (pos_part a + neg_part b) (pos_part b + neg_part a)

unfoldable pub mul_fixed : ℤ → ℤ → ℤ
unfolding floor_div ◌*ℤ◌
mul_fixed a b = floor_div (a *ℤ b) unit

unfoldable pub div_fixed : ℤ → ℤ → ℤ
unfolding floor_div ◌*ℤ◌
div_fixed a (pos b) = floor_div (a *ℤ pos unit) b
div_fixed a (negsuc b) = floor_div (a *ℤ negsuc (unit - 1)) (b + 1)

unfoldable pub neg_fixed : ℤ → ℤ
neg_fixed a = sub_ℕ (neg_part a) (pos_part a)

unfoldable pub abs_fixed : ℤ → ℤ
abs_fixed a = pos (pos_part a + neg_part a)

unfoldable pub scaled : ℤ → ℤ
unfolding ◌*ℤ◌
scaled a = a *ℤ pos unit

unfoldable pub floor_fixed : ℤ → ℤ
unfolding floor_div scaled
floor_fixed a = scaled (floor_div a unit)

-- Newton's iteration from above, with a bound on its rounds.
newton : ℕ → ℕ → ℕ → ℕ
newton zero n x = x
newton (suc rounds) n x =
    let y = (x + n / x) / 2 in elim (ltb y x) [ true ↦ newton rounds n y | false ↦ x ]

unfoldable pub sqrt_fixed : ℤ → ℤ
unfolding newton
sqrt_fixed (pos n) = if n == 0 then pos 0 else pos (newton 64 (n * unit) (n * unit))
sqrt_fixed (negsuc n) = pos 0

instance abbrev pub fixed_decimal : Decimal ℤ
fixed_decimal = record {
  nought = pos 0;
  of_int = scaled;
  add = ◌+ℤ◌;
  sub = ◌-ℤ◌;
  mul = mul_fixed;
  div = div_fixed;
  neg = neg_fixed;
  abs = abs_fixed;
  cmp = cmp_ℤ;
}

instance abbrev pub fixed_float : Float64 ℤ
fixed_float = record {
  lit = λ m k. pos (m * unit / 10 ^ k);
  of_int = scaled;
  to_int = λ a. quot a unit;
  add = ◌+ℤ◌;
  sub = ◌-ℤ◌;
  mul = mul_fixed;
  div = div_fixed;
  neg = neg_fixed;
  abs = abs_fixed;
  floor = floor_fixed;
  round = λ a. floor_fixed (a +ℤ pos (unit / 2));
  sqrt = sqrt_fixed;
  log = λ a. a -ℤ pos unit;
  max = λ a b. if lt_ℤ a b then b else a;
  min = λ a b. if lt_ℤ a b then a else b;
  lt = lt_ℤ;
  le = le_ℤ;
  eq = λ a b. elim (cmp_ℤ a b) [ Ordering.eq ↦ true | _ ↦ false ];
}

instance abbrev pub fixed_convert : Convert ℤ ℤ
fixed_convert = record { to_float = λ a. a; from_float = λ a. a }

cmp_ℤ_swap : (a b : ℤ) → cmp_ℤ b a ≡ flip (cmp_ℤ a b)
cmp_ℤ_swap a b = ground arith

≼→≤ℤ : (a b : ℤ) → a ≼ b → a ≤ℤ b
≼→≤ℤ a b h = ground arith

≤ℤ→≼ : (a b : ℤ) → a ≤ℤ b → a ≼ b
≤ℤ→≼ a b h = ground arith

le_trans_ℤ : (a b c : ℤ) → a ≼ b → b ≼ c → a ≼ c
le_trans_ℤ a b c h k = ≤ℤ→≼ a c (omega (arith, ≼→≤ℤ a b h, ≼→≤ℤ b c k))

fixed_IsOrdered : IsOrdered ℤ
fixed_IsOrdered = record { cmp_swap = cmp_ℤ_swap; le_trans = le_trans_ℤ }

div-le-div : (m n k : ℕ) → 0 < k → m ≤ n → m / k ≤ n / k
div-le-div m n k p h = grind arith

floor_div_mono : (a b : ℤ) (k : ℕ) → 0 < k → a ≤ℤ b → floor_div a k ≤ℤ floor_div b k
unfolding floor_div
floor_div_mono (pos m) (pos n) k p h = omega (arith, div-le-div m n k p (omega arith))
floor_div_mono (pos m) (negsuc n) k p h = absurd (omega arith)
floor_div_mono (negsuc m) (pos n) k p h = omega arith
floor_div_mono (negsuc m) (negsuc n) k p h = omega (arith, div-le-div n m k p (omega arith))

*ℤ_parts :
    (a : ℤ) (c : ℕ)
    → pos_part (a *ℤ pos c) + neg_part a * c ≡ neg_part (a *ℤ pos c) + pos_part a * c
unfolding ◌*ℤ◌
*ℤ_parts (pos m) c = ground arith
*ℤ_parts (negsuc m) c = ground arith

*ℤ_mono : (a b : ℤ) (c : ℕ) → a ≤ℤ b → a *ℤ pos c ≤ℤ b *ℤ pos c
*ℤ_mono a b c h =
    let wider : (pos_part a + neg_part b) * c ≤ (pos_part b + neg_part a) * c =
      mul-le-mul_right c h in
    omega (arith, wider, *ℤ_parts a c, *ℤ_parts b c)

add_mono_ℤ : (a b c : ℤ) → a ≼ b → a +ℤ c ≼ b +ℤ c
add_mono_ℤ a b c h = ≤ℤ→≼ (a +ℤ c) (b +ℤ c) (omega (arith, ≼→≤ℤ a b h, +ℤ_parts a c, +ℤ_parts b c))

sub_anti_ℤ : (a b c : ℤ) → a ≼ b → c -ℤ b ≼ c -ℤ a
sub_anti_ℤ a b c h = ≤ℤ→≼ (c -ℤ b) (c -ℤ a) (omega (arith, ≼→≤ℤ a b h, -ℤ_parts c b, -ℤ_parts c a))

mul_mono_ℤ : (a b c : ℤ) → a ≼ b → pos 0 ≼ c → mul_fixed a c ≼ mul_fixed b c
unfolding mul_fixed
mul_mono_ℤ a b (pos c) h k =
    ≤ℤ→≼ (floor_div (a *ℤ pos c) unit) (floor_div (b *ℤ pos c) unit)
      (floor_div_mono (a *ℤ pos c) (b *ℤ pos c) unit (omega arith) (*ℤ_mono a b c (≼→≤ℤ a b h)))
mul_mono_ℤ a b (negsuc c) h k = absurd (omega (arith, ≼→≤ℤ (pos 0) (negsuc c) k))

div_mono_ℤ : (a b c : ℤ) → a ≼ b → greater_than c (pos 0) ≡ true → div_fixed a c ≼ div_fixed b c
unfolding div_fixed
div_mono_ℤ a b (pos c) h k = ≤ℤ→≼ (floor_div (a *ℤ pos unit) c) (floor_div (b *ℤ pos unit) c) (
    floor_div_mono (a *ℤ pos unit) (b *ℤ pos unit) c (ground arith) (*ℤ_mono a b unit (≼→≤ℤ a b h)))
div_mono_ℤ a b (negsuc c) h k = ground arith

abs_nonneg_ℤ : (a : ℤ) → pos 0 ≼ abs_fixed a
unfolding abs_fixed
abs_nonneg_ℤ a = ground arith

hundred_nonneg_ℤ : pos 0 ≼ scaled (pos 100)
unfolding scaled
hundred_nonneg_ℤ = refl

one_positive_ℤ : greater_than (scaled (pos 1)) (pos 0) ≡ true
unfolding scaled
one_positive_ℤ = refl

div-mul_self : (n : ℕ) → 0 < n → n * unit / n ≡ unit
div-mul_self n h = mul-div_cancel_left unit h

div_self_ℤ : (a : ℤ) → greater_than a (pos 0) ≡ true → div_fixed a a ≡ scaled (pos 1)
unfolding div_fixed scaled
div_self_ℤ (pos n) h = ground (arith, div-mul_self n)
div_self_ℤ (negsuc n) h = ground arith

mul_one_ℤ : (a : ℤ) → mul_fixed (scaled (pos 1)) a ≡ a
unfolding mul_fixed scaled
mul_one_ℤ (pos n) = ground arith
mul_one_ℤ (negsuc n) = ground arith

pub fixed_IsField : IsField ℤ
fixed_IsField = record {
  ordered = fixed_IsOrdered;
  add_comm = λ a b. omega int_laws;
  add_assoc = λ a b c. omega int_laws;
  add_mono = add_mono_ℤ;
  add_nought = λ a. omega int_laws;
  sub_anti = sub_anti_ℤ;
  mul_mono = mul_mono_ℤ;
  div_mono = div_mono_ℤ;
  abs_nonneg = abs_nonneg_ℤ;
  hundred_nonneg = hundred_nonneg_ℤ;
  one_positive = one_positive_ℤ;
  div_self = div_self_ℤ;
  mul_one = mul_one_ℤ;
}
