-- ===== src/Scanner/ScanExamples.antt =====
-- The theorems of the scan with the default configuration, in ten-thousandths; one engine has a detector that
-- always gives three signals, another has the six detectors and sixty candles.
use trading_challenge.Prelude.{
  ℕ, ◌+◌, ◌*◌, ◌<◌, ◌≡◌, refl, arith, Bool, true, false, Option, none, some, some_of, List, [], ◌∷◌,
  length, replicate, All, String, ◌+ℤ◌, ℤ, pos, negsuc, lt_ℤ, lookup, Time, unix_milli, add64,
  sub64,
}
use trading_challenge.Prelude.Fixed.{fixed_float, neg_fixed, div_fixed, scaled, mul_fixed}
use trading_challenge.Scanner.Types.{Candle, Signal, long, SignalAlert}
use trading_challenge.Scanner.Market.{MarketState}
use trading_challenge.Scanner.Guardrails.{daily_status, status_of, maybe_reset_daily}
use trading_challenge.Scanner.RiskManager.{compute_risk_params}
use trading_challenge.Scanner.Engine.{
  Engine, default_engine_config, new_engine, detectors_of, new_state, update_market_state,
  update_candles,
}
use trading_challenge.Scanner.Scoring.{Surroundings}
use trading_challenge.Scanner.Scan.{scan, scan_symbol, is_cooling, is_full}
use trading_challenge.Scanner.Emission.{IsAdmitted}
use trading_challenge.Scanner.Cooldown.{
  Call, market, scanned, run, alerts_for, IsSoon, scan-IsAdmitted, cooldown_holds,
}
use trading_challenge.Scanner.Panics.{IsUsable, scan_symbol_panics}

-- Second k of the noon of a day.
abbrev at : ℕ → Time
at k = pos (20_000 * 86_400_000_000_000 + (43_200 + k) * 1_000_000_000)

abbrev units : ℕ → ℤ
units k = pos (k * 10_000)

irreflexive : (x : ℤ) → lt_ℤ x x ≡ false
irreflexive (pos n) = ground arith
irreflexive (negsuc n) = ground arith

abbrev around : ℕ → Surroundings
around k = record {
  start = at k;
  daily = at k;
  expires = λ symbol direction. at k;
  created = λ symbol direction. at k;
  registered = λ id. at k;
  print_id = λ symbol direction now number. symbol;
}

abbrev signal : String → Signal ℤ
signal factor = record {
  factor = factor;
  direction = long;
  strength = pos 8000;
  detail = record { format = ""; arguments = []; suffix = "" };
  ts_ms = pos 0;
}

abbrev eager : MarketState ℤ → Option (List (Signal ℤ))
eager state = some (signal "A" ∷ signal "B" ∷ signal "C" ∷ [])

abbrev quoted : Engine ℤ → Engine ℤ
quoted e =
    update_market_state "BTCUSDT" (units 100) (units 99) (units 101) (units 100) (units 5) (pos 1)
      (pos 7) e

abbrev eager_engine : Engine ℤ
eager_engine =
    quoted (record (new_engine (at 0) none default_engine_config) { detectors = eager ∷ [] })

abbrev result_of : Option (Engine ℤ × List (SignalAlert ℤ)) → Engine ℤ × List (SignalAlert ℤ)
result_of none = (eager_engine, [])
result_of (some r) = r

abbrev is_some : Option (Engine ℤ × List (SignalAlert ℤ)) → Bool
is_some none = false
is_some (some r) = true

some_result :
    (o : Option (Engine ℤ × List (SignalAlert ℤ))) → is_some o ≡ true → o ≡ some (result_of o)
some_result none h = cc
some_result (some r) h = refl

abbrev scanned_once : Engine ℤ × List (SignalAlert ℤ)
scanned_once = result_of (scan (around 60) eager_engine)

scan_returns : is_some (scan (around 60) eager_engine) ≡ true
unfolding scan new_engine update_market_state default_engine_config some_of status_of
    maybe_reset_daily neg_fixed div_fixed scaled mul_fixed ◌+ℤ◌ compute_risk_params
scan_returns = refl

alerted : alerts_for "BTCUSDT" scanned_once.1 ≡ true
unfolding scan new_engine update_market_state default_engine_config some_of status_of
    maybe_reset_daily neg_fixed div_fixed scaled mul_fixed ◌+ℤ◌ compute_risk_params
alerted = refl

positive : lt_ℤ (pos 0) eager_engine.cfg.cooldown_per_symbol_ms ≡ true
unfolding new_engine update_market_state default_engine_config
positive = refl

scan-IsAdmitted_example :
    All
      (λ (a : SignalAlert ℤ).
        IsAdmitted (unix_milli (at 60)) eager_engine a
        × ((daily_status (at 60) eager_engine.guard).1.can_trade ≡ true))
      scanned_once.1
scan-IsAdmitted_example =
    scan-IsAdmitted irreflexive (around 60) eager_engine scanned_once positive
      (some_result (scan (around 60) eager_engine) scan_returns)

-- A quote and a scan, a minute after the alert.
abbrev calls : List (Call ℤ)
calls =
    market "BTCUSDT" (units 101) (units 100) (units 102) (units 101) (units 5) (pos 1) (pos 8)
    ∷ scanned (around 120)
    ∷ []

calls_return : is_some (run calls scanned_once.0) ≡ true
unfolding run scan new_engine update_market_state default_engine_config some_of status_of
    maybe_reset_daily neg_fixed div_fixed scaled mul_fixed ◌+ℤ◌ compute_risk_params sub64 unix_milli
calls_return = refl

soon : All (IsSoon (unix_milli (at 60)) eager_engine.cfg.cooldown_per_symbol_ms) calls
unfolding new_engine update_market_state default_engine_config unix_milli sub64
soon = (tt, (refl, tt))

cooldown_holds_example : alerts_for "BTCUSDT" (result_of (run calls scanned_once.0)).1 ≡ false
cooldown_holds_example =
    cooldown_holds irreflexive "BTCUSDT" (around 60) eager_engine scanned_once
      (result_of (run calls scanned_once.0)) calls positive
      (some_result (scan (around 60) eager_engine) scan_returns) alerted soon
      (some_result (run calls scanned_once.0) calls_return)

abbrev candle : Candle ℤ
candle = record {
  open_time = pos 0;
  open_price = units 100;
  high = units 101;
  low = units 99;
  close = units 100;
  volume = units 1;
  turnover = units 100;
  close_time = pos 1;
}

-- Sixty candles of fifteen minutes.
abbrev young_engine : Engine ℤ
young_engine =
    update_candles "BTCUSDT" "15" (replicate 60 candle)
      (quoted (new_engine (at 0) none default_engine_config))

abbrev young_state : MarketState ℤ
young_state = record (new_state "BTCUSDT") {
  price = units 100;
  best_bid = units 99;
  best_ask = units 101;
  mark_price = units 100;
  volume_24h = units 5;
  funding_rate = pos 1;
  ts_ms = pos 7;
  candles = ("15", replicate 60 candle) ∷ [];
}

young_found : lookup "BTCUSDT" young_engine.states ≡ some young_state
unfolding new_engine update_market_state update_candles default_engine_config lookup scaled
young_found = refl

young_detectors : young_engine.detectors ≡ detectors_of young_engine.cfg
unfolding new_engine update_market_state update_candles default_engine_config detectors_of
young_detectors = refl

young_rested : is_cooling "BTCUSDT" (unix_milli (at 60)) young_engine ≡ false
unfolding new_engine update_market_state update_candles default_engine_config is_cooling
young_rested = refl

young_room : is_full young_engine ≡ false
unfolding new_engine update_market_state update_candles default_engine_config is_full
young_room = refl

young-IsUsable : IsUsable young_engine.cfg.trend_pullback
unfolding new_engine update_market_state update_candles default_engine_config
young-IsUsable = record { fast = refl; slow = refl; index = refl; swings = refl }

young_candles :
    lookup young_engine.cfg.trend_pullback.candle_tf young_state.candles
    ≡ some (candle ∷ candle ∷ replicate 58 candle)
unfolding new_engine update_market_state update_candles default_engine_config lookup replicate
young_candles = refl

young_enough :
    lt_ℤ
      (pos (length (candle ∷ candle ∷ replicate 58 candle)))
      (add64 young_engine.cfg.trend_pullback.slow_ema (pos 10))
    ≡ false
unfolding new_engine update_market_state update_candles default_engine_config add64 replicate
young_enough = refl

young_few : length (candle ∷ candle ∷ replicate 58 candle) < 96
unfolding replicate
young_few = omega arith

scan_symbol_panics_example :
    scan_symbol (around 60) (unix_milli (at 60)) "BTCUSDT" young_engine ≡ none
scan_symbol_panics_example =
    scan_symbol_panics (around 60) (unix_milli (at 60)) "BTCUSDT" young_engine young_state candle
      candle (replicate 58 candle) young_detectors young_found refl refl young_rested young_room
      young-IsUsable young_candles young_enough young_few
