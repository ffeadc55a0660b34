-- ===== src/Arb/Examples.antt =====
-- The theorems of the spread engine on a few prices.
use trading_challenge.Prelude.{◌≡◌, refl, ◌↔◌, List, [], ◌∷◌, ◌++◌, arith, ℤ, pos, ◌+ℤ◌}
use trading_challenge.Prelude.Fixed.{fixed_float}
use trading_challenge.Arb.Pair.{PairConfig, pair_id, AreReverse}
use trading_challenge.Arb.Stats.{RollingStats, compute_rolling_stats}
use trading_challenge.Arb.Engine.{
  BasisConfig, PairState, new_pair, default_basis_config, new_engine, pair_state, entered_position,
  day_ms,
}
use trading_challenge.Arb.Evaluate.{deviation_of, primary_notional, entry_intent, exit_intent}
use trading_challenge.Arb.Window.{Prices, run, history, day_stats-history}
use trading_challenge.Arb.Reversal.{spread_exit_reverses_iff}

abbrev cfg : BasisConfig ℤ
cfg = default_basis_config {F = ℤ}

abbrev pair : PairConfig ℤ
pair = record { primary = "BTCUSDT"; hedge = "ETHUSDT"; min_correlation = pos 7_000 }

-- A day and two hours pass between the first quote and the last.
abbrev quotes : List (Prices ℤ)
quotes =
    (pos 1_000_000, pos 500_000, pos 1_000)
    ∷ (pos 0, pos 500_000, pos 2_000)
    ∷ (pos 1_100_000, pos 500_000, pos 93_601_000)
    ∷ []

day_stats-history_example :
    let after =
      pair_state (pair_id "BTCUSDT" "ETHUSDT") (run "BTCUSDT" "ETHUSDT" quotes (new_engine cfg)) in
    compute_rolling_stats after.samples (pos 93_602_000) day_ms
    ≡ compute_rolling_stats
        ((pair_state (pair_id "BTCUSDT" "ETHUSDT") (new_engine cfg)).samples ++ history quotes)
        (pos 93_602_000)
        day_ms
unfolding ◌+ℤ◌
day_stats-history_example =
    day_stats-history "BTCUSDT" "ETHUSDT" quotes (new_engine cfg) (pos 93_602_000) (ground arith)
      (ground arith)

abbrev stats : RollingStats ℤ
stats = record { mean = pos 10_000; stddev = pos 100; count = pos 200 }

abbrev state : PairState ℤ
state = record (new_pair {F = ℤ}) { primary_price = pos 1_000_000; hedge_price = pos 500_000 }

spread_exit_reverses_iff_example :
    let p =
      entered_position
        (pos 2_000)
        "BTCUSDT"
        "ETHUSDT"
        (primary_notional cfg (pos 100_000_000))
        (pos 10_000)
        (pos 9_700)
        stats in
    AreReverse
      (entry_intent cfg pair state (pos 100_000_000) (pos 9_700) stats (pos 2_000) (pos 1)).legs
      (exit_intent cfg p (pos 10_000) (pos 9_000) (pos 2)).legs
    ↔ (fixed_float.lt (deviation_of (pos 9_700) stats) (fixed_float.lit 0 0)
        ≡ fixed_float.lt (pos 9_700) stats.mean)
spread_exit_reverses_iff_example =
    spread_exit_reverses_iff cfg pair state (pos 100_000_000) (pos 9_700) (pos 10_000) (pos 9_700)
      stats stats (pos 2_000) (pos 2_000) (pos 9_000) (pos 1) (pos 2) refl
