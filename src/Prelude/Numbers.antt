-- ===== src/Prelude/Numbers.antt =====
-- Amounts. `Decimal` is what the program uses of shopspring/decimal, a library outside the repository,
-- and `Float64` what it uses of Go's float64 and package math. Both are parameters of the model. The
-- records of laws below state documented behaviour; a theorem names those that it relies on.
use Prim.Native.Nat.{ℕ, Ordering}
use mathlib.Core.Path.{◌≡◌}
use mathlib.Core.Bool.{Bool, true, false}
use trading_challenge.Prelude.Int.{ℤ, pos}

-- `cmp` is `Cmp`: the order of the numbers that two decimals represent. `div` is `Div`, which panics
-- on a zero divisor: no law below says anything of that case.
pub record Decimal {ℓ} (D : Type ℓ) : Type ℓ where
  pub nought : D
  pub of_int : ℤ → D
  pub add : D → D → D
  pub sub : D → D → D
  pub mul : D → D → D
  pub div : D → D → D
  pub neg : D → D
  pub abs : D → D
  pub cmp : D → D → Ordering

module _ {ℓ} {D : Type ℓ} ⦃dec : Decimal D⦄ where
  abbrev pub less_than : D → D → Bool
  less_than a b = elim (dec.cmp a b) [ Ordering.lt ↦ true | _ ↦ false ]

  abbrev pub less_than_or_equal : D → D → Bool
  less_than_or_equal a b = elim (dec.cmp a b) [ Ordering.gt ↦ false | _ ↦ true ]

  abbrev pub greater_than : D → D → Bool
  greater_than a b = elim (dec.cmp a b) [ Ordering.gt ↦ true | _ ↦ false ]

  abbrev pub greater_than_or_equal : D → D → Bool
  greater_than_or_equal a b = elim (dec.cmp a b) [ Ordering.lt ↦ false | _ ↦ true ]

  abbrev pub is_zero : D → Bool
  is_zero a = elim (dec.cmp a dec.nought) [ Ordering.eq ↦ true | _ ↦ false ]

  abbrev pub is_positive : D → Bool
  is_positive a = greater_than a dec.nought

  abbrev pub is_negative : D → Bool
  is_negative a = less_than a dec.nought

-- The order of a decimal, as a type.
infix 4 ◌≼◌
abbrev pub ◌≼◌ {ℓ} : {D : Type ℓ} ⦃dec : Decimal D⦄ → D → D → Type 0
a ≼ b = less_than_or_equal a b ≡ true

abbrev pub flip : Ordering → Ordering
flip Ordering.lt = Ordering.gt
flip Ordering.eq = Ordering.eq
flip Ordering.gt = Ordering.lt

pub record IsOrdered {ℓ} (D : Type ℓ) ⦃dec : Decimal D⦄ : Type ℓ where
  pub cmp_swap : (a b : D) → dec.cmp b a ≡ flip (dec.cmp a b)
  pub le_trans : (a b c : D) → a ≼ b → b ≼ c → a ≼ c

-- Addition is exact; the laws of order hold of `Mul`, which is exact, and of `Div`, which rounds to
-- 16 places, half away from zero.
pub record IsField {ℓ} (D : Type ℓ) ⦃dec : Decimal D⦄ : Type ℓ where
  pub ordered : IsOrdered D
  pub add_comm : (a b : D) → dec.add a b ≡ dec.add b a
  pub add_assoc : (a b c : D) → dec.add (dec.add a b) c ≡ dec.add a (dec.add b c)
  pub add_mono : (a b c : D) → a ≼ b → dec.add a c ≼ dec.add b c
  pub add_nought : (a : D) → dec.add dec.nought a ≡ a
  pub sub_anti : (a b c : D) → a ≼ b → dec.sub c b ≼ dec.sub c a
  pub mul_mono : (a b c : D) → a ≼ b → dec.nought ≼ c → dec.mul a c ≼ dec.mul b c
  pub div_mono : (a b c : D) → a ≼ b → greater_than c dec.nought ≡ true → dec.div a c ≼ dec.div b c
  pub abs_nonneg : (a : D) → dec.nought ≼ dec.abs a
  pub hundred_nonneg : dec.nought ≼ dec.of_int (pos 100)
  pub one_positive : greater_than (dec.of_int (pos 1)) dec.nought ≡ true
  pub div_self : (a : D) → greater_than a dec.nought ≡ true → dec.div a a ≡ dec.of_int (pos 1)
  pub mul_one : (a : D) → dec.mul (dec.of_int (pos 1)) a ≡ a

-- `lit m k` is the float64 that the literal m / 10 ^ k denotes, `of_int` and `to_int` are the conversions.
pub record Float64 {ℓ} (F : Type ℓ) : Type ℓ where
  pub lit : ℕ → ℕ → F
  pub of_int : ℤ → F
  pub to_int : F → ℤ
  pub add : F → F → F
  pub sub : F → F → F
  pub mul : F → F → F
  pub div : F → F → F
  pub neg : F → F
  pub abs : F → F
  pub floor : F → F
  pub round : F → F
  pub sqrt : F → F
  pub log : F → F
  pub max : F → F → F
  pub min : F → F → F
  pub lt : F → F → Bool
  pub le : F → F → Bool
  pub eq : F → F → Bool

-- `Float64()` or `InexactFloat64()`, and `NewFromFloat`.
pub record Convert {ℓ κ} (D : Type ℓ) (F : Type κ) : Type (ℓ ⊔ κ) where
  pub to_float : D → F
  pub from_float : F → D
