-- ===== src/Strategy/Examples.antt =====
-- The theorems of the selector on a pair whose spread is below its mean.
use trading_challenge.Prelude.{
  ◌≡◌, refl, ◌↔◌, false, some, [], ◌∷◌, length, ◌-ℤ◌, ℤ, pos, negsuc, lookup,
}
use trading_challenge.Prelude.Fixed.{fixed_float, mul_fixed, div_fixed, abs_fixed}
use trading_challenge.Arb.Pair.{pair_id, AreReverse}
use trading_challenge.Strategy.Types.{PairCondition}
use trading_challenge.Strategy.Selector.{
  OpenPosition, Selector, new_selector, default_selector_config, select_strategy,
  total_allocated_pct,
}
use trading_challenge.Strategy.Intents.{is_reversed, build_entry_intent, build_exit_intent}
use trading_challenge.Strategy.Evaluate.{confirm_entry, evaluate}
use trading_challenge.Strategy.Reversal.{exit_reverses_iff}
use trading_challenge.Strategy.Entries.{AreAdmitted, evaluate-AreAdmitted}

abbrev cond : PairCondition ℤ
cond = record {
  primary_symbol = "BTCUSDT";
  primary_price = pos 1_000_000;
  primary_funding = pos 1;
  hedge_symbol = "ETHUSDT";
  hedge_price = pos 500_000;
  hedge_funding = pos 1;
  funding_diff_bps = pos 0;
  beta = pos 10_000;
  correlation = pos 9_000;
  spread_z_score = negsuc 29_999;
  spread_mean = pos 0;
  spread_std_dev = pos 20;
  regime = "NEUTRAL";
  ts_ms = pos 1_000;
}

abbrev start : Selector ℤ
start = new_selector (default_selector_config {F = ℤ})

-- The cycle emits one entry.
evaluate_test :
    length (evaluate {F = ℤ} (pos 2_000) (cond ∷ []) (pos 100_000_000) (pos 10_000) start).1.entries
    ≡ 1
unfolding evaluate mul_fixed div_fixed abs_fixed ◌-ℤ◌
evaluate_test = refl

evaluate-AreAdmitted_example :
    let equity = mul_fixed (pos 100_000_000) (pos 10_000) in
    AreAdmitted {F = ℤ} start equity
      (pos 2_000)
      (total_allocated_pct equity start.positions)
      (cond ∷ [])
      (evaluate {F = ℤ} (pos 2_000) (cond ∷ []) (pos 100_000_000) (pos 10_000) start).1.entries
evaluate-AreAdmitted_example =
    evaluate-AreAdmitted (pos 2_000) (cond ∷ []) (pos 100_000_000) (pos 10_000) start

exit_reverses_iff_example :
    let decision = select_strategy start.cfg cond in
    let s' =
      confirm_entry (pos 2_000) "BTCUSDT" "ETHUSDT" decision.strategy (pos 20_000_000) cond start in
    let entry = build_entry_intent start.cfg cond decision (pos 20_000_000) (pos 2_000) (pos 1) in
    (p : OpenPosition ℤ) × (lookup (pair_id "BTCUSDT" "ETHUSDT") s'.positions ≡ some p)
    × (AreReverse entry.legs (build_exit_intent start.cfg p (pos 9_000) (pos 2)).legs
        ↔ (is_reversed decision cond ≡ false))
exit_reverses_iff_example =
    exit_reverses_iff cond (select_strategy start.cfg cond) (pos 20_000_000) (pos 2_000) (pos 9_000)
      (pos 1) (pos 2) start
