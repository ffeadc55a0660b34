-- ===== src/Arb/Evaluate.antt =====
-- internal/arb/engine.go: `Evaluate` and `evaluateExit`, and the total of the open positions.
use trading_challenge.Prelude.{
  Bool, true, false, ◌||◌, Option, none, some, List, [], ◌∷◌, if◌then◌else◌, ℤ, pos, lt_ℤ, le_ℤ,
  add64, sub64, mul64, Dict, lookup, Float64,
}
use trading_challenge.Arb.{ExpectedMetrics, TradeIntent}
use trading_challenge.Arb.Pair.{PairConfig, pair_id, pair_intent, edges, positive_beta}
use trading_challenge.Arb.Stats.{RollingStats, compute_rolling_stats}
use trading_challenge.Arb.Engine.{BasisConfig, BasisPosition, PairState, Engine, day_ms}

module _ {ℓ} {F : Type ℓ} ⦃flt : Float64 F⦄ where
  -- The spread is back, or the position was held for too long.
  unfoldable pub should_exit :
      BasisConfig F → BasisPosition F → F → RollingStats F → (now : ℤ) → Bool
  should_exit cfg p spread stats now =
      let held = sub64 now p.entry_time in
      let most =
        mul64 (mul64 (mul64 (mul64 cfg.max_hold_days (pos 24)) (pos 60)) (pos 60)) (pos 1000) in
      let back =
        if flt.lt (flt.lit 0 0) stats.stddev
        then flt.le (flt.div (flt.abs (flt.sub spread stats.mean)) stats.stddev) cfg.exit_std_dev
        else false in
      back || le_ℤ most held

  unfoldable pub exit_intent : BasisConfig F → BasisPosition F → F → (now seq : ℤ) → TradeIntent F
  exit_intent cfg p spread now seq =
      let beta = positive_beta p.hedge_beta in
      pair_intent
        (record { prefix = "basis-exit"; strategy = "basis_exit"; cooldown = "basis-exit" })
        cfg.intent_ttl_ms cfg.max_slippage_bps p.pair_id p.primary_symbol p.hedge_symbol beta now
        seq (if flt.lt p.entry_spread p.entry_mean then false else true) p.notional_usd
        (flt.div p.notional_usd beta)
        (edges (flt.mul (flt.sub p.entry_spread spread) (flt.lit 10_000 0)) (flt.lit 0 0))

  -- The deviation from the mean and the annualised basis.
  unfoldable pub deviation_of : F → RollingStats F → F
  deviation_of spread stats = flt.div (flt.sub spread stats.mean) stats.stddev

  unfoldable pub annualized_pct : BasisConfig F → F → RollingStats F → F
  annualized_pct cfg spread stats =
      flt.mul
        (flt.mul (flt.abs (flt.sub spread stats.mean))
          (flt.div (flt.lit 365 0) (flt.of_int cfg.max_hold_days)))
        (flt.lit 100 0)

  unfoldable pub primary_notional : BasisConfig F → (equity : F) → F
  primary_notional cfg equity = flt.mul equity (flt.div cfg.max_allocation_pct (flt.lit 100 0))

  -- The guards of an entry, in their order.
  unfoldable pub may_enter :
      BasisConfig F → PairState F → (equity spread : F) → RollingStats F → (now : ℤ) → Bool
  unfolding deviation_of annualized_pct primary_notional
  may_enter cfg ps equity spread stats now =
      if lt_ℤ stats.count (pos 100) || flt.le stats.stddev (flt.lit 0 0)
      then false
      else if lt_ℤ now ps.cooldown_ms
      then false
      else if flt.lt (flt.abs (deviation_of spread stats)) cfg.entry_std_dev
      then false
      else if flt.lt (annualized_pct cfg spread stats) cfg.min_annualized_basis_pct
      then false
      else if flt.lt (primary_notional cfg equity) (flt.lit 10 0)
      then false
      else true

  unfoldable pub entry_metrics :
      BasisConfig F → (primary hedge spread : F) → RollingStats F → ExpectedMetrics F
  unfolding deviation_of annualized_pct
  entry_metrics cfg primary hedge spread stats =
      let total = flt.add primary hedge in
      let fees = flt.mul total (flt.div cfg.fee_bps_taker (flt.lit 10_000 0)) in
      let slippage = flt.mul total (flt.div cfg.max_slippage_bps (flt.lit 10_000 0)) in
      let gross =
        flt.mul (flt.mul (flt.abs (deviation_of spread stats)) stats.stddev) (flt.lit 10_000 0) in
      let cost = flt.mul (flt.div (flt.add fees slippage) primary) (flt.lit 10_000 0) in
      let net = flt.sub gross cost in
      record {
        edge_bps_gross = gross;
        edge_bps_net = net;
        profit_usd_net = flt.mul primary (flt.div net (flt.lit 10_000 0));
        fees_usd_est = fees;
        slippage_usd_est = slippage;
        funding_rate_8h_bps = flt.lit 0 0;
        annual_yield_pct_net = annualized_pct cfg spread stats;
      }

  unfoldable pub entry_intent :
      BasisConfig F
      → PairConfig F
      → PairState F
      → (equity spread : F) → RollingStats F
      → (now seq : ℤ) → TradeIntent F
  unfolding pair_id primary_notional entry_metrics deviation_of
  entry_intent cfg pair ps equity spread stats now seq =
      let primary = primary_notional cfg equity in
      let beta = positive_beta ps.beta in
      let hedge = flt.div primary beta in
      pair_intent (record { prefix = "basis"; strategy = "basis"; cooldown = "basis" })
        cfg.intent_ttl_ms cfg.max_slippage_bps (pair_id pair.primary pair.hedge) pair.primary
        pair.hedge beta now seq (flt.lt (deviation_of spread stats) (flt.lit 0 0)) primary hedge
        (entry_metrics cfg primary hedge spread stats)

  -- The intent for a pair, given the sequence number that it would take.
  unfoldable pub intent_of :
      BasisConfig F
      → PairConfig F
      → PairState F
      → (equity : F) → (now seq : ℤ) → Option (TradeIntent F)
  unfolding should_exit exit_intent may_enter entry_intent compute_rolling_stats
  intent_of cfg pair ps equity now seq =
      let spread = flt.log (flt.div ps.primary_price ps.hedge_price) in
      let stats = compute_rolling_stats ps.samples now day_ms in
      elim (flt.le ps.primary_price (flt.lit 0 0) || flt.le ps.hedge_price (flt.lit 0 0)) [
        | true ↦ none
        | false ↦ elim ps.position [
          | some p ↦
              if should_exit cfg p spread stats now
              then some (exit_intent cfg p spread now seq)
              else none
          | none ↦
              if may_enter cfg ps equity spread stats now
              then some (entry_intent cfg pair ps equity spread stats now seq)
              else none
        ]
      ]

  unfoldable pub evaluate_pairs :
      Engine F → (equity : F) → (now seq : ℤ) → List (PairConfig F) → ℤ × List (TradeIntent F)
  unfolding pair_id lookup intent_of
  evaluate_pairs e equity now seq [] = (seq, [])
  evaluate_pairs e equity now seq (pair ∷ pairs) =
      elim (lookup (pair_id pair.primary pair.hedge) e.state) [
        | none ↦ evaluate_pairs e equity now seq pairs
        | some ps ↦
            let n = add64 seq (pos 1) in
            elim (intent_of e.cfg pair ps equity now n) [
              | none ↦ evaluate_pairs e equity now seq pairs
              | some intent ↦
                  let (seq', intents) = evaluate_pairs e equity now n pairs in
                  (seq', intent ∷ intents)
            ]
      ]

  unfoldable pub evaluate : (now : ℤ) (equity : F) → Engine F → Engine F × List (TradeIntent F)
  unfolding evaluate_pairs
  evaluate now equity e =
      let (seq, intents) = evaluate_pairs e equity now e.seq_id e.cfg.pairs in
      (record e { seq_id = seq }, intents)

  -- Both legs of the open positions, added up in the order of iteration.
  unfoldable total_from : F → Dict (PairState F) → F
  total_from total [] = total
  total_from total ((_, ps) ∷ state) =
      total_from
        (elim ps.position as (λ _. F) [
          | none ↦ total
          | some p ↦
              flt.add total
                (flt.add p.notional_usd (flt.div p.notional_usd (positive_beta p.hedge_beta)))
        ])
        state

  total_notional : Engine F → F
  unfolding total_from
  total_notional e = total_from (flt.lit 0 0) e.state
