-- ===== src/Challenge/Examples.antt =====
-- The theorems of the compliance layer at the amounts of configs/challenge_config.yaml, in
-- ten-thousandths of a dollar, and some runs.

use trading_challenge.Prelude.{
  IsMap, insert, ◌+ℤ◌, ℕ, ◌*◌, ◌+◌, ◌≡◌, ◌≢◌, refl, ◌⊎◌, ◌↔◌, true, false, none, some, List, [],
  ◌∷◌, String, Dict, lookup, ℤ, pos, ◌+ℤ◌, ◌-ℤ◌, ◌*ℤ◌, Time, add_duration, same_date, some_of,
}
use trading_challenge.Prelude.Fixed.{
  fixed_decimal, fixed_float, fixed_convert, fixed_IsField, scaled, mul_fixed, div_fixed,
}
use trading_challenge.Arb.{TradeLeg, TradeIntent}
use trading_challenge.Challenge.Config.{
  Config, phase1, soft, hard, breach, validate, hundred, parse_safety_trade_time,
  stop_loss_deadline, parse_clock,
}
use trading_challenge.Challenge.Rules.{
  RuleError, check_daily_drawdown, check_overall_drawdown, check_profit_distribution,
  check_per_trade_risk,
}
use trading_challenge.Challenge.Daemon.{
  TrackedPosition, Daemon, new_daemon, update_equity, track_position, confirm_stop_loss,
  reset_daily_if_needed, is_overdue, track_position, close_position, recalc_exposure,
}
use trading_challenge.Challenge.Intent.{
  challenge_halted, first_overdue, intent_notional, check_funded, check_trade, check_rules,
  validate_intent,
}
use trading_challenge.Challenge.Invariant.{Inv, new_daemon-Inv, update_equity-Inv}
use trading_challenge.Challenge.Exposure.{margin_of, notional_of, exposure_balance}
use trading_challenge.Challenge.Steps.{
  Call, record_closed, track, check, run, new_daemon-run-Inv, halted_refuses,
}
use trading_challenge.Challenge.Admission.{
  IsAdmissible, update_equity_halts_iff, validate_intent_iff,
}
use trading_challenge.Challenge.Profit.{first_profit_refused}
use trading_challenge.Challenge.Stops.{deadline_enforced}
use trading_challenge.Challenge.Days.{IsDistinct, trade_dates, trading_days_history}

-- Whole dollars.
abbrev usd : ℕ → ℤ
usd n = pos (n * 10_000)

abbrev cfg : Config ℤ
cfg = record {
  enabled = true;
  mode = phase1;
  initial_balance = usd 100_000;
  daily_drawdown_soft_pct = usd 3;
  daily_drawdown_hard_pct = usd 4;
  daily_drawdown_breach_pct = usd 5;
  overall_drawdown_soft_pct = usd 7;
  overall_drawdown_hard_pct = pos 85_000;
  overall_drawdown_breach_pct = usd 10;
  max_risk_per_trade_pct = usd 3;
  profit_distribution_max_pct = usd 40;
  min_trading_days = pos 10;
  stop_loss_deadline_seconds = pos 300;
  stop_loss_default_pct = pos 25_000;
  low_cap_threshold_usd = usd 100_000_000;
  low_cap_max_allocation_pct = usd 5;
  funded_max_margin_exposure_pct = usd 25;
  funded_max_notional_multiplier = usd 2;
  safety_trade_time_utc = "22:00";
  safety_trade_size_usd = usd 100;
}

-- Noon of the day 20000 after the epoch, and the days after it.
abbrev noon : ℕ → Time
noon k = pos ((20_000 + k) * 86_400_000_000_000 + 43_200_000_000_000)

abbrev evening : ℕ → Time
evening k = pos ((20_000 + k) * 86_400_000_000_000 + 82_800_000_000_000)

abbrev fresh : Daemon ℤ
fresh = new_daemon (noon 0) cfg

abbrev leg : String → String → TradeLeg ℤ
leg action symbol = record {
  action = action;
  type = "LIMIT";
  market = "PERP";
  symbol = symbol;
  notional_usd = usd 20_000;
  max_slippage_bps = usd 5;
  price_limit = pos 0;
}

abbrev intent : ℤ → TradeIntent ℤ
intent profit = record {
  intent_id = "funding-1";
  strategy = "funding";
  symbol = "BTCUSDT";
  hedge_symbol = "ETHUSDT";
  hedge_beta = usd 1;
  ts_ms = pos 0;
  expires_ms = pos 10_000;
  legs = leg "SELL" "BTCUSDT" ∷ leg "BUY" "ETHUSDT" ∷ [];
  expected = record {
    edge_bps_gross = pos 0;
    edge_bps_net = pos 0;
    profit_usd_net = profit;
    fees_usd_est = pos 0;
    slippage_usd_est = pos 0;
    funding_rate_8h_bps = pos 0;
    annual_yield_pct_net = pos 0;
  };
  constraints = record {
    max_age_ms = pos 10_000;
    hedge_preference = "SEQUENTIAL";
    cooldown_key = "";
  };
}

cfg_valid : validate cfg ≡ none
unfolding validate parse_safety_trade_time parse_clock
cfg_valid = refl

-- A fall of 4.5 percent of the day's high is of hard level, one of 5 percent a breach.
levels_run :
    ((check_daily_drawdown (usd 95_500) (usd 100_000) cfg).0.level ≡ hard)
    × ((check_daily_drawdown (usd 95_000) (usd 100_000) cfg).0.level ≡ breach)
    × ((check_overall_drawdown (usd 93_000) (usd 100_000) cfg).0.level ≡ soft)
unfolding check_daily_drawdown check_overall_drawdown mul_fixed div_fixed ◌-ℤ◌ scaled
levels_run = (refl, refl, refl)

-- The intent of the selector, with no expected profit, passes.
intent_run : (validate_intent {F = ℤ} (noon 0) (noon 0) (intent (pos 0)) fresh).1 ≡ none
unfolding validate_intent check_rules check_trade hundred intent_notional check_funded first_overdue
    reset_daily_if_needed new_daemon check_daily_drawdown check_overall_drawdown
    check_per_trade_risk check_profit_distribution mul_fixed div_fixed ◌-ℤ◌ ◌+ℤ◌ scaled same_date
intent_run = refl

abbrev calls : List (Call ℤ ℤ)
calls =
    record_closed (noon 0) (usd 100)
    ∷ track (noon 0) "BTCUSDT" (usd 40_000) (usd 20_000)
    ∷ record_closed (noon 2) (usd 50)
    ∷ check (noon 2) (noon 2) (intent (pos 0))
    ∷ []

new_daemon-run-Inv_example : Inv (run calls (new_daemon (noon 0) cfg))
new_daemon-run-Inv_example = new_daemon-run-Inv fixed_IsField (noon 0) cfg calls

trading_days_history_example :
    let d = run calls (new_daemon (noon 0) cfg) in
    IsDistinct d.trading_days
    × ((some_of (same_date (pos 20_002)) d.trading_days ≡ true)
        ↔ (some_of (same_date (pos 20_002)) (trade_dates calls) ≡ true))
trading_days_history_example = trading_days_history (noon 0) cfg calls (pos 20_002)

abbrev fallen : Daemon ℤ
fallen = (update_equity (noon 0) (usd 94_000) fresh).0

fallen_halted : fallen.halted ≡ true
unfolding update_equity new_daemon check_daily_drawdown check_overall_drawdown mul_fixed div_fixed
    ◌-ℤ◌ scaled same_date
fallen_halted = refl

update_equity_halts_iff_example :
    let d' = (update_equity (noon 0) (usd 94_000) fresh).0 in
    (d'.halted ≡ true) ↔ (
      (fresh.halted ≡ true)
      ⊎ ((check_daily_drawdown (usd 94_000) d'.daily_high_water fresh.cfg).0.level ≡ breach)
      ⊎ ((check_overall_drawdown (usd 94_000) fresh.cfg.initial_balance fresh.cfg).0.level
          ≡ breach))
update_equity_halts_iff_example = update_equity_halts_iff (noon 0) (usd 94_000) fresh

fallen-Inv : Inv fallen
fallen-Inv =
    update_equity-Inv fixed_IsField (noon 0) (usd 94_000)
      (new_daemon-Inv fixed_IsField (noon 0) cfg)

halted_refuses_example :
    (e : RuleError ℤ) × ((validate_intent (noon 3) (noon 3) (intent (pos 0)) (run calls fallen)).1
      ≡ some (challenge_halted (some e)))
halted_refuses_example =
    halted_refuses fixed_IsField calls fallen (noon 3) (noon 3) (intent (pos 0)) fallen-Inv
      fallen_halted (tt, (tt, (tt, (tt, tt))))

validate_intent_iff_example :
    let d' = reset_daily_if_needed (noon 0) fresh in
    (((validate_intent (noon 0) (noon 0) (intent (pos 0)) fresh).1 ≡ none) ↔ (
      (fresh.halted ≡ false)
      × ((fresh.cfg.enabled ≡ false) ⊎ IsAdmissible (noon 0) (intent (pos 0)) d')))
    × ((validate_intent (noon 0) (noon 0) (intent (pos 0)) fresh).0 ≡ d')
unfolding new_daemon reset_daily_if_needed same_date
validate_intent_iff_example =
    validate_intent_iff fixed_IsField (noon 0) (noon 0) (intent (pos 0)) fresh cfg_valid refl

first_profit_refused_example : (validate_intent (noon 0) (noon 0) (intent (usd 1)) fresh).1 ≢ none
unfolding new_daemon scaled ◌*ℤ◌
first_profit_refused_example =
    first_profit_refused fixed_IsField (noon 0) (noon 0) (intent (usd 1)) fresh refl refl (λ e. cc)
      refl refl

abbrev tracked : TrackedPosition ℤ
tracked = record {
  symbol = "BTCUSDT";
  open_time = noon 0;
  deadline = evening 0;
  has_stop_loss = false;
  stop_loss_set = none;
  notional_usd = usd 40_000;
  margin_usd = usd 20_000;
}

abbrev two : Dict (TrackedPosition ℤ)
two = ("BTCUSDT", tracked) ∷ ("ETHUSDT", record tracked { symbol = "ETHUSDT" }) ∷ []

abbrev holding : Daemon ℤ
holding = record fresh { positions = two }

abbrev tracks : List (Call ℤ ℤ)
tracks =
    track (noon 0) "BTCUSDT" (usd 40_000) (usd 20_000)
    ∷ track (noon 0) "ETHUSDT" (usd 30_000) (usd 10_000)
    ∷ []

abbrev pair : Daemon ℤ
pair = run tracks fresh

pair-IsMap : IsMap pair.positions
unfolding track_position recalc_exposure insert lookup run new_daemon
pair-IsMap = (refl, (refl, tt))

exposure_balance_example :
    let opened = track_position (noon 1) "ETHUSDT" (usd 50_000) (usd 15_000) pair in
    let closed = close_position "ETHUSDT" pair in
    let margin_before = margin_of (lookup "ETHUSDT" pair.positions) in
    let notional_before = notional_of (lookup "ETHUSDT" pair.positions) in
    (opened.total_margin +ℤ margin_before ≡ pair.total_margin +ℤ usd 15_000)
    × (opened.total_notional +ℤ notional_before ≡ pair.total_notional +ℤ usd 50_000)
    × (closed.total_margin +ℤ margin_before ≡ pair.total_margin)
    × (closed.total_notional +ℤ notional_before ≡ pair.total_notional)
exposure_balance_example =
    exposure_balance fixed_IsField (noon 1) "ETHUSDT" (usd 50_000) (usd 15_000) pair
      (new_daemon-run-Inv fixed_IsField (noon 0) cfg tracks) pair-IsMap

abbrev btc : String
btc = "BTCUSDT"

abbrev eth : String
eth = "ETHUSDT"

abbrev protected : TrackedPosition ℤ
protected = record tracked { symbol = eth; has_stop_loss = true; stop_loss_set = some (noon 1) }

deadline_enforced_example :
    let d' = track_position (noon 0) "BTCUSDT" (usd 40_000) (usd 20_000) fresh in
    ((validate_intent (noon 1) (noon 1) (intent (pos 0)) d').1 ≢ none)
    × ((t : Time) (p : TrackedPosition ℤ)
        → lookup "BTCUSDT" (confirm_stop_loss (noon 0) "BTCUSDT" d').positions ≡ some p
        → is_overdue t p ≡ false)
unfolding new_daemon stop_loss_deadline add_duration
deadline_enforced_example =
    deadline_enforced (noon 0) (noon 1) (noon 1) (noon 0) "BTCUSDT" (usd 40_000) (usd 20_000)
      (intent (pos 0)) fresh refl refl
