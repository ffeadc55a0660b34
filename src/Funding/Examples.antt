-- ===== src/Funding/Examples.antt =====
-- The theorems of the regime detector on a few rates, in ten-thousandths.
use trading_challenge.Funding.Regime.{persistent, detect_regime, should_exit_all}
use trading_challenge.Funding.Streak.{streak_exits}
use trading_challenge.Funding.Engine.{OpenPosition}
use trading_challenge.Funding.Exits.{entered_position}
use trading_challenge.Prelude.{◌++◌, arith, ◌≡◌, refl, some, List, [], ◌∷◌, ℤ, pos, negsuc, true}
use trading_challenge.Prelude.Fixed.{fixed_float}
use trading_challenge.Funding.Regime.{RegimeConfig, RegimeDetector, new_detector, samples_of}
use trading_challenge.Funding.Window.{Rate, record_rates, samples_for, last, record_rates_window}

abbrev cfg : RegimeConfig ℤ
cfg = record {
  lookback_periods = pos 2;
  negative_threshold_pct = pos 600_000;
  reduce_position_pct = pos 250_000;
  exit_all_on_persistent = true;
  persistent_negative_periods = pos 2;
}

abbrev rates : List (Rate ℤ)
rates =
    ("BTCUSDT", pos 3, pos 1)
    ∷ ("ETHUSDT", negsuc 4, pos 1)
    ∷ ("BTCUSDT", negsuc 0, pos 2)
    ∷ ("BTCUSDT", negsuc 1, pos 3)
    ∷ []

record_rates_window_example :
    (rd : RegimeDetector ℤ) × (record_rates rates (new_detector cfg) ≡ some rd)
    × (rd.cfg ≡ cfg)
    × (samples_of "BTCUSDT" rd ≡ last 2 (samples_for "BTCUSDT" rates))
record_rates_window_example = record_rates_window cfg 2 rates "BTCUSDT" refl

abbrev patient : RegimeConfig ℤ
patient = record cfg { lookback_periods = pos 4; persistent_negative_periods = pos 3 }

abbrev negative : List (Rate ℤ)
negative =
    ("BTCUSDT", negsuc 0, pos 4) ∷ ("BTCUSDT", negsuc 1, pos 5) ∷ ("BTCUSDT", negsuc 2, pos 6) ∷ []

streak_exits_example :
    (rd : RegimeDetector ℤ) × (record_rates (rates ++ negative) (new_detector patient) ≡ some rd)
    × (detect_regime "BTCUSDT" rd ≡ some persistent)
    × (should_exit_all "BTCUSDT" rd ≡ some true)
streak_exits_example =
    streak_exits patient 3 4 rates negative "BTCUSDT" refl refl (omega arith) (omega arith) refl
      (refl, (refl, (refl, tt))) (refl, (refl, (refl, tt)))

abbrev carry : OpenPosition ℤ
carry = entered_position (pos 1_000) "BTCUSDT" "ETHUSDT" (pos 1_000_000) (pos 10_000) (pos 80_000)
