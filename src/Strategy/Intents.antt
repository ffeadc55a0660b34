-- ===== src/Strategy/Intents.antt =====
-- internal/strategy/selector.go: the intents of an entry and of an exit, and `PairID` of correlation.go.
use trading_challenge.Prelude.{Bool, true, ◌&&◌, if◌then◌else◌, ℤ, Float64}
use trading_challenge.Arb.{TradeIntent}
use trading_challenge.Arb.Pair.{pair_id, pair_intent, edges, positive_beta}
use trading_challenge.Strategy.Types.{PairCondition, Decision}
use trading_challenge.Strategy.Selector.{SelectorConfig, OpenPosition, is_basis}

module _ {ℓ} {F : Type ℓ} ⦃flt : Float64 F⦄ where
  -- The spread is below its mean: the primary is bought.
  unfoldable pub is_reversed : Decision F → PairCondition F → Bool
  is_reversed decision cond = is_basis decision.strategy && flt.lt cond.spread_z_score (flt.lit 0 0)

  -- `seq` is the number after the increment.
  unfoldable pub build_entry_intent :
      SelectorConfig F → PairCondition F → Decision F → F → (now seq : ℤ) → TradeIntent F
  unfolding is_reversed is_basis pair_id
  build_entry_intent cfg cond decision notional now seq =
      let beta = positive_beta cond.beta in
      let name = if is_basis decision.strategy then "basis" else "funding" in
      pair_intent (record { prefix = name; strategy = name; cooldown = name }) cfg.intent_ttl_ms
        cfg.max_slippage_bps (pair_id cond.primary_symbol cond.hedge_symbol) cond.primary_symbol
        cond.hedge_symbol beta now seq (is_reversed decision cond) notional (flt.div notional beta)
        (edges (flt.add decision.expected_edge_bps (flt.mul cfg.fee_bps_taker (flt.lit 4 0)))
          decision.expected_edge_bps)

  unfoldable pub build_exit_intent :
      SelectorConfig F → OpenPosition F → (now seq : ℤ) → TradeIntent F
  unfolding is_basis
  build_exit_intent cfg p now seq =
      let beta = positive_beta p.hedge_beta in
      let name = if is_basis p.strategy then "basis_exit" else "funding_exit" in
      pair_intent (record { prefix = name; strategy = name; cooldown = name }) cfg.intent_ttl_ms
        cfg.max_slippage_bps p.pair_id p.primary_symbol p.hedge_symbol beta now seq true
        p.notional_usd (flt.div p.notional_usd beta) (edges (flt.lit 0 0) (flt.lit 0 0))
