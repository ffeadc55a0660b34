-- ===== src/Prelude/Order.antt =====
-- The order of decimals: reflexivity, and the step that raises a high-water mark.

use native.Mathlib.Omega.{arith}
use trading_challenge.Prelude.Tests.{if◌then◌else◌}
use trading_challenge.Prelude.Numbers.{Decimal, ◌≼◌, IsOrdered, greater_than}

module _ {ℓ} {D : Type ℓ} ⦃dec : Decimal D⦄ (laws : IsOrdered D) where
  open laws use {cmp_swap, le_trans}

  pub le_refl : (a : D) → a ≼ a
  le_refl a = ground (arith, cmp_swap a a)

  pub raised_mono :
      (a b c : D)
      → b ≼ c
      → (if greater_than a b then a else b) ≼ (if greater_than a c then a else c)
  raised_mono a b c h =
      ground
        (arith, le_refl a, le_refl c, le_trans a b c, le_trans b a c, cmp_swap a b, cmp_swap a c)

  pub le-raised : (a b : D) → a ≼ (if greater_than a b then a else b)
  le-raised a b = ground (arith, le_refl a)
