-- ===== src/Scanner/Guardrails.antt =====
-- internal/scanner/guardrails.go: the last gate before a trade signal. A method returns the new
-- guardrails and takes each reading of the clock as an argument; the mutex makes each method atomic.
-- Results in R are float64, counters int, times milliseconds in int64. A date stands for its text.
use trading_challenge.Prelude.{
  ℕ, Bool, true, false, not, Option, none, some, List, [], map, length, select, String, Dict,
  lookup, insert, erase, if◌then◌else◌, ℤ, pos, add64, sub64, mul64, lt_ℤ, le_ℤ, floor_div,
  time_sub, Time, Date, utc_date, unix_milli, same_date, Float64,
}

pub record GuardrailConfig {ℓ} (F : Type ℓ) : Type ℓ where
  pub max_trades_per_day : ℤ
  pub max_consecutive_losses : ℤ
  pub daily_stop_loss_r : F
  pub cooldown_after_alert_ms : ℤ
  pub time_stop_minutes : ℤ
  pub win_rate_review_threshold : F
  pub min_review_trades : ℤ
  pub risk_per_trade_pct : F
  pub tp_multiple_r : F

pub record Guardrails {ℓ} (F : Type ℓ) : Type ℓ where
  pub cfg : GuardrailConfig F
  pub trades_today : ℤ
  pub consecutive_losses : ℤ
  pub daily_pnl_r : F
  pub last_reset_date : Date
  pub halted : Bool
  pub halt_reason : String
  pub alert_cooldowns : Dict ℤ
  pub open_trade_timestamps : Dict Time

-- The reasons of a refusal, with what their messages print.
pub data Refusal {ℓ} (F : Type ℓ) : Type ℓ where
  system_halted : String → Refusal F
  daily_trade_limit : (trades limit : ℤ) → Refusal F
  consecutive_loss_limit : (losses limit : ℤ) → Refusal F
  daily_stop_hit : (pnl limit : F) → Refusal F
  cooldown_active : (seconds : ℤ) → Refusal F

pub record DailyState {ℓ} (F : Type ℓ) : Type ℓ where
  pub trades_today : ℤ
  pub max_trades : ℤ
  pub consecutive_losses : ℤ
  pub max_consec_losses : ℤ
  pub daily_pnl_r : F
  pub daily_stop_r : F
  pub open_trades : ℕ
  pub can_trade : Bool
  pub reason : String
  pub date : Date

module _ {ℓ} {F : Type ℓ} where
  unfoldable pub register_alert_received : Time → String → Guardrails F → Guardrails F
  register_alert_received now alert_id g =
      let cooldown_until = add64 (unix_milli now) g.cfg.cooldown_after_alert_ms in
      record g { alert_cooldowns = insert alert_id cooldown_until g.alert_cooldowns }

  unfoldable pub halt : String → Guardrails F → Guardrails F
  halt reason g = record g { halted = true; halt_reason = reason }

  unfoldable pub resume : Guardrails F → Guardrails F
  resume g = record g { halted = false; halt_reason = "" }

  -- The alerts whose trades are open for longer than the time stop.
  unfoldable pub check_time_stops : Time → Guardrails F → List String
  check_time_stops now g =
      let max_age = mul64 g.cfg.time_stop_minutes (pos 60_000_000_000) in
      map (λ e. e.0) (select (λ e. lt_ℤ max_age (time_sub now e.1)) g.open_trade_timestamps)

  -- Check 5: the cooldown of the alert, if it is running.
  unfoldable pub check_cooldown : Time → String → Guardrails F → Option (Refusal F)
  check_cooldown now alert_id g = elim (lookup alert_id g.alert_cooldowns) [
    | none ↦ none
    | some cooldown_until ↦
        if lt_ℤ (unix_milli now) cooldown_until
        then some (cooldown_active (floor_div (sub64 cooldown_until (unix_milli now)) 1000))
        else none
  ]

module _ {ℓ} {F : Type ℓ} ⦃flt : Float64 F⦄ where
  unfoldable pub default_guardrail_config : GuardrailConfig F
  default_guardrail_config = record {
    max_trades_per_day = pos 3;
    max_consecutive_losses = pos 2;
    daily_stop_loss_r = flt.neg (flt.lit 15 1);
    cooldown_after_alert_ms = pos 60_000;
    time_stop_minutes = pos 240;
    win_rate_review_threshold = flt.lit 30 0;
    min_review_trades = pos 20;
    risk_per_trade_pct = flt.lit 5 1;
    tp_multiple_r = flt.lit 2 0;
  }

  unfoldable pub new_guardrails : Time → GuardrailConfig F → Guardrails F
  new_guardrails now cfg = record {
    cfg = cfg;
    trades_today = pos 0;
    consecutive_losses = pos 0;
    daily_pnl_r = flt.lit 0 0;
    last_reset_date = utc_date now;
    halted = false;
    halt_reason = "";
    alert_cooldowns = [];
    open_trade_timestamps = [];
  }

  unfoldable pub maybe_reset_daily : Time → Guardrails F → Guardrails F
  maybe_reset_daily now g = if same_date (utc_date now) g.last_reset_date then g else record g {
    trades_today = pos 0;
    consecutive_losses = pos 0;
    daily_pnl_r = flt.lit 0 0;
    last_reset_date = utc_date now;
  }

  -- `none` is allowed. `today` and `now` are the two readings of the clock.
  unfoldable pub check_pre_trade :
      (today now : Time) → String → Guardrails F → Guardrails F × Option (Refusal F)
  check_pre_trade today now alert_id g₀ =
      let g = maybe_reset_daily today g₀ in
      (
        g,
        if g.halted
            then some (system_halted g.halt_reason)
            else if le_ℤ g.cfg.max_trades_per_day g.trades_today
            then some (daily_trade_limit g.trades_today g.cfg.max_trades_per_day)
            else if le_ℤ g.cfg.max_consecutive_losses g.consecutive_losses
            then some (consecutive_loss_limit g.consecutive_losses g.cfg.max_consecutive_losses)
            else if flt.le g.daily_pnl_r g.cfg.daily_stop_loss_r
            then some (daily_stop_hit g.daily_pnl_r g.cfg.daily_stop_loss_r)
            else check_cooldown now alert_id g,
      )

  unfoldable pub record_trade_opened : (today now : Time) → String → Guardrails F → Guardrails F
  record_trade_opened today now alert_id g₀ =
      let g = maybe_reset_daily today g₀ in
      record g {
        trades_today = add64 g.trades_today (pos 1);
        open_trade_timestamps = insert alert_id now g.open_trade_timestamps;
      }

  unfoldable pub record_trade_result : (today : Time) → String → F → Guardrails F → Guardrails F
  record_trade_result today alert_id result_r g₀ =
      let g = maybe_reset_daily today g₀ in
      record g {
        daily_pnl_r = flt.add g.daily_pnl_r result_r;
        consecutive_losses =
            if flt.lt result_r (flt.lit 0 0) then add64 g.consecutive_losses (pos 1) else pos 0;
        open_trade_timestamps = erase alert_id g.open_trade_timestamps;
        alert_cooldowns = erase alert_id g.alert_cooldowns;
      }

  -- The first limit that stops the day, with its text.
  unfoldable pub status_of : Guardrails F → Bool × String
  status_of g =
      if g.halted
      then (false, g.halt_reason)
      else if le_ℤ g.cfg.max_trades_per_day g.trades_today
      then (false, "max trades reached")
      else if le_ℤ g.cfg.max_consecutive_losses g.consecutive_losses
      then (false, "consecutive loss limit")
      else if flt.le g.daily_pnl_r g.cfg.daily_stop_loss_r
      then (false, "daily stop hit")
      else (true, "ready")

  unfoldable pub daily_status : (today : Time) → Guardrails F → Guardrails F × DailyState F
  daily_status today g₀ =
      let g = maybe_reset_daily today g₀ in
      let (can_trade, reason) = status_of g in
      (
        g,
        record {
          trades_today = g.trades_today;
          max_trades = g.cfg.max_trades_per_day;
          consecutive_losses = g.consecutive_losses;
          max_consec_losses = g.cfg.max_consecutive_losses;
          daily_pnl_r = g.daily_pnl_r;
          daily_stop_r = g.cfg.daily_stop_loss_r;
          open_trades = length g.open_trade_timestamps;
          can_trade = can_trade;
          reason = reason;
          date = g.last_reset_date;
        },
      )

  -- True is healthy, or too few trades to tell. The arguments are the statistics that it reads.
  unfoldable pub check_performance_health : (total_trades : ℤ) (win_rate : F) → Guardrails F → Bool
  check_performance_health total_trades win_rate g =
      if lt_ℤ total_trades g.cfg.min_review_trades
      then true
      else not (flt.lt win_rate g.cfg.win_rate_review_threshold)
