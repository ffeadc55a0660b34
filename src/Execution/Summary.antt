-- ===== src/Execution/Summary.antt =====
-- internal/execution/executor.go: the fill summary of `Execute`.
use trading_challenge.Prelude.{
  Bool, false, ◌&&◌, List, [], ◌∷◌, foldl, str_eq, if◌then◌else◌, ℤ, Decimal, Float64, Convert,
}
use trading_challenge.Arb.{TradeIntent}
use trading_challenge.Execution.Types.{FillSummary, LegResult}

module _ {ℓ κ} {D : Type ℓ} {F : Type κ} ⦃dec : Decimal D⦄ ⦃flt : Float64 F⦄
    ⦃conv : Convert D F⦄ where
  -- The prices and the profit of a pair of which both legs were filled.
  unfoldable pub add_profit :
      TradeIntent F → (total_fees : D) → List (LegResult D) → FillSummary F → FillSummary F
  add_profit intent total_fees (a ∷ b ∷ _) fill =
      if a.filled && b.filled
      then (let swapped : Bool = elim intent.legs [
        | [] ↦ false
        | leg ∷ _ ↦ str_eq leg.action "SELL"
      ] in
          let buy = conv.to_float (if swapped then b.fill_price else a.fill_price) in
          let sell = conv.to_float (if swapped then a.fill_price else b.fill_price) in
          let mid = flt.div (flt.add buy sell) (flt.lit 2 0) in
          record fill {
            buy_price = buy;
            sell_price = sell;
            net_pnl =
                if flt.lt (flt.lit 0 0) mid
                then flt.sub (flt.mul (flt.div (flt.sub sell buy) mid) (conv.to_float a.filled_usd))
                    (conv.to_float total_fees)
                else fill.net_pnl;
          })
      else fill
  add_profit intent total_fees _ fill = fill

  unfoldable pub summarise : TradeIntent F → List (LegResult D) → ℤ → FillSummary F
  unfolding add_profit
  summarise intent results ts =
      let total_fees = foldl (λ sum r. dec.add sum r.fees_usd) dec.nought results in
      add_profit intent total_fees results (record {
        intent_id = intent.intent_id;
        strategy = intent.strategy;
        symbol = intent.symbol;
        hedge_symbol = intent.hedge_symbol;
        buy_price = flt.lit 0 0;
        sell_price = flt.lit 0 0;
        total_fees = conv.to_float total_fees;
        net_pnl = flt.lit 0 0;
        ts_ms = ts;
      })
