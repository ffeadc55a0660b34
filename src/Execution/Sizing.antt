-- ===== src/Execution/Sizing.antt =====
-- internal/execution/executor.go: how much a leg orders.
use trading_challenge.Prelude.{
  Bool, ◌&&◌, not, Option, none, some, String, str_eq, if◌then◌else◌, ℤ, Decimal, Float64, Convert,
}
use trading_challenge.Arb.{TradeLeg, TradeIntent}
use trading_challenge.Exchange.{VenueConstraints, round_qty}
use trading_challenge.Execution.Types.{LegResult}

-- The leg before, with its index and its result.
abbrev pub Previous {ℓ κ} : Type ℓ → Type κ → Type (ℓ ⊔ κ)
Previous D F = Option (TradeLeg F × ℤ × LegResult D)

module _ {ℓ} {F : Type ℓ} ⦃flt : Float64 F⦄ where
  abbrev pub fallback_constraints : String → VenueConstraints F
  fallback_constraints symbol = record {
    symbol = symbol;
    tick_size = flt.lit 1 1;
    lot_size = flt.lit 1 3;
    min_qty = flt.lit 1 3;
    min_notional = flt.lit 5 0;
  }

  -- The quantity of the order, and whether its value is below the minimum.
  unfoldable pub order_qty : VenueConstraints F → (target mid : F) → F
  unfolding round_qty
  order_qty vc target mid =
      let qty = round_qty vc (flt.div target mid) in
      if flt.lt (flt.lit 0 0) vc.min_qty && flt.lt qty vc.min_qty then vc.min_qty else qty

  unfoldable pub is_below_minimum : VenueConstraints F → (qty mid : F) → Bool
  is_below_minimum vc qty mid =
      flt.lt (flt.lit 0 0) vc.min_notional && flt.lt (flt.mul qty mid) vc.min_notional

module _ {ℓ κ} {D : Type ℓ} {F : Type κ} ⦃dec : Decimal D⦄ ⦃flt : Float64 F⦄
    ⦃conv : Convert D F⦄ where
  -- After a partial fill the next leg is scaled to what was filled.
  unfoldable pub target_notional : TradeIntent F → TradeLeg F → Previous D F → F
  target_notional intent leg none = leg.notional_usd
  target_notional intent leg (some (_, _, r)) =
      if r.partial
      then (if flt.lt (flt.lit 0 0) intent.hedge_beta && not (str_eq leg.symbol intent.symbol)
          then flt.div (conv.to_float r.filled_usd) intent.hedge_beta
          else conv.to_float r.filled_usd)
      else leg.notional_usd
