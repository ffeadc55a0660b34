-- ===== src/Scanner/Examples.antt =====
-- The theorems of the guardrails with the default limits, in ten-thousandths of an R, and of the tracker with
-- one long trade from 100 with the stop-loss at 95 and the target at 115.
use trading_challenge.Prelude.{
  ◌<◌, ℕ, arith, false, some, some_of, str_eq, ◌&&◌, IsMap, insert, ◌+◌, ◌*◌, ◌≡◌, ◌≢◌, refl, ◌↔◌,
  true, none, List, [], ◌∷◌, ℤ, pos, negsuc, Time, utc_date, floor_div, same_date, le_ℤ, lookup,
}
use trading_challenge.Prelude.Fixed.{fixed_float, neg_fixed}
use trading_challenge.Scanner.Guardrails.{
  GuardrailConfig, Guardrails, default_guardrail_config, new_guardrails, check_pre_trade,
  daily_status, record_trade_opened, maybe_reset_daily, check_cooldown, halt,
}
use trading_challenge.Scanner.Gate.{Call, alerted, asked, opened, run, gate_agrees, halt_closes}
use trading_challenge.Scanner.Limits.{Reaches, start, check, trade, trades_limited}
use trading_challenge.Scanner.Types.{long, pending, RiskParams, SignalAlert}
use trading_challenge.Scanner.Performance.{TradeRecord}
use trading_challenge.Scanner.Tracker.{
  OutcomeTracker, new_outcome_tracker, register_trade, check_price_for_outcome, determine_outcome,
}
use trading_challenge.Scanner.Outcomes.{triggered_iff, is_hit}
use trading_challenge.Scanner.Streak.{Result, record_results, trailing_losses, loss_streak}

abbrev cfg : GuardrailConfig ℤ
unfolding default_guardrail_config
cfg = default_guardrail_config

-- Second k of the noon of a day.
abbrev at : ℕ → Time
at k = pos (20_000 * 86_400_000_000_000 + (43_200 + k) * 1_000_000_000)

abbrev fresh : Guardrails ℤ
fresh = new_guardrails (at 0) cfg

gate_agrees_example :
    let (g', status) = daily_status (at 1) fresh in
    (((check_pre_trade (at 1) (at 2) "a" fresh).1 ≡ none)
      ↔ ((status.can_trade ≡ true) × (check_cooldown (at 2) "a" g' ≡ none)))
    × ((check_pre_trade (at 1) (at 2) "a" fresh).0 ≡ g')
gate_agrees_example = gate_agrees (at 1) (at 2) "a" fresh

abbrev calls : List (Call ℤ)
calls = alerted (at 1) "a" ∷ asked (at 2) (at 2) "a" ∷ opened (at 90_000) (at 90_000) "b" ∷ []

halt_closes_example :
    (check_pre_trade (at 100_000) (at 100_000) "a" (run calls (halt "manual" fresh))).1 ≢ none
halt_closes_example =
    halt_closes "manual" calls fresh (at 100_000) (at 100_000) "a" (tt, (tt, (tt, tt)))

today_same : same_date (utc_date (at 5)) (utc_date (at 0)) ≡ true
unfolding same_date utc_date floor_div
today_same = refl

first_passes : (check_pre_trade (at 5) (at 5) "a" fresh).1 ≡ none
unfolding check_pre_trade new_guardrails default_guardrail_config maybe_reset_daily utc_date
    floor_div same_date check_cooldown lookup neg_fixed
first_passes = refl

abbrev checked : Guardrails ℤ
checked = (check_pre_trade (at 5) (at 5) "a" fresh).0

second_passes : (check_pre_trade (at 5) (at 6) "b" checked).1 ≡ none
unfolding check_pre_trade new_guardrails default_guardrail_config maybe_reset_daily utc_date
    floor_div same_date check_cooldown lookup neg_fixed
second_passes = refl

-- Two checks, and then the two trades.
abbrev twice : Guardrails ℤ
twice =
    record_trade_opened (at 5) (at 8) "b"
      (record_trade_opened (at 5) (at 7) "a" (check_pre_trade (at 5) (at 6) "b" checked).0)

two_trades : Reaches (utc_date (at 0)) 2 fresh 2 0 twice
two_trades =
    let first = check start (at 5) (at 5) "a" today_same first_passes (omega arith) in
    let second = check first (at 5) (at 6) "b" today_same second_passes (omega arith) in
    trade (trade second (at 5) (at 7) "a" today_same) (at 5) (at 8) "b" today_same

trades_limited_example : (2 < 3 + 2) × (twice.trades_today ≡ pos 2)
unfolding cfg
trades_limited_example = trades_limited (at 0) cfg 2 3 refl (omega arith) (omega arith) two_trades

abbrev results : List (Result ℤ)
results = (at 5, "a", pos 20_000) ∷ (at 5, "b", negsuc 9999) ∷ (at 5, "c", negsuc 4999) ∷ []

loss_streak_example :
    let g' = record_results results fresh in
    (g'.consecutive_losses ≡ pos (trailing_losses results))
    × (le_ℤ fresh.cfg.max_consecutive_losses (pos (trailing_losses results)) ≡ true
        → (check_pre_trade (at 5) (at 5) "d" g').1 ≢ none)
unfolding new_guardrails
loss_streak_example =
    loss_streak (utc_date (at 0)) results fresh (at 5) (at 5) "d"
      (today_same, (today_same, (today_same, tt))) today_same refl refl (omega arith)

-- A number of units.
abbrev units : ℕ → ℤ
units k = pos (k * 10_000)

abbrev risk : RiskParams ℤ
risk = record {
  entry = units 100;
  stop_loss = units 95;
  take_profit1 = units 115;
  take_profit2 = units 120;
  take_profit3 = units 125;
  position_size_usd = units 1000;
  position_size_qty = units 10;
  risk_usd = units 50;
  risk_pct = units 1;
  risk_reward_ratio = units 3;
  leverage = units 2;
  sl_distance_pct = units 5;
}

abbrev alert : SignalAlert ℤ
alert = record {
  id = "a";
  symbol = "BTCUSDT";
  direction = long;
  signals = [];
  confluence_score = pos 4;
  risk = risk;
  timeframe = "15";
  expires_at = at 900;
  created_at = at 0;
  outcome = pending;
  outcome_detail = none;
  outcome_pnl = pos 0;
  outcome_at = none;
}

abbrev open_trade : TradeRecord ℤ
open_trade = record {
  alert = alert;
  entry_time = at 1;
  exit_time = none;
  actual_entry = units 100;
  actual_sl = units 95;
  actual_tp = units 115;
  actual_exit_price = pos 0;
  actual_pnl_usd = pos 0;
  actual_pnl_pct = pos 0;
  slippage = pos 0;
  fees = pos 0;
  counted_for_trading_day = false;
}

abbrev tracker : OutcomeTracker ℤ
tracker =
    register_trade (at 1) alert (units 100) (units 95) (units 115)
      (new_outcome_tracker none (pos 0))

tracked_once : IsMap tracker.open_trades
unfolding register_trade new_outcome_tracker insert lookup
tracked_once = (refl, tt)

tracked : lookup "a" tracker.open_trades ≡ some open_trade
unfolding register_trade new_outcome_tracker insert lookup
tracked = refl

triggered_iff_example :
    some_of (str_eq "a") (check_price_for_outcome "BTCUSDT" (units 94) tracker.open_trades) ≡ (
      str_eq open_trade.alert.symbol "BTCUSDT" && is_hit (determine_outcome "a" (units 94) tracker))
triggered_iff_example =
    triggered_iff "a" "BTCUSDT" (units 94) tracker open_trade tracked_once tracked
