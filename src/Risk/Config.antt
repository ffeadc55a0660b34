-- ===== src/Risk/Config.antt =====
-- internal/risk/config.go: the parameters of the risk engine, their defaults and their validation.
-- `LoadConfig` applies `validate` to what the YAML library and the environment give.
use trading_challenge.Prelude.{
  Bool, true, ◌||◌, Option, none, some, String, if◌then◌else◌, ℤ, pos, Float64,
}

pub record Config {ℓ} (F : Type ℓ) : Type ℓ where
  pub challenge_mode : Bool
  pub max_drawdown_pct : F
  pub safe_mode_drawdown_pct : F
  pub daily_soft_halt_pct : F
  pub daily_hard_halt_pct : F
  pub max_error_rate_5m_pct : F
  pub max_hedge_drift_ms : ℤ
  pub stale_data_pause_ms : ℤ
  pub position_recon_interval_ms : ℤ
  pub leg_mismatch_alert_ms : ℤ
  pub leg_mismatch_close_ms : ℤ
  pub kelly_fraction : F
  pub redis_addr : String

pub data ConfigError : Type 0 where
  max_drawdown safe_mode_drawdown daily_soft_halt daily_hard_halt : ConfigError
  kelly_fraction_range max_error_rate : ConfigError

module _ {ℓ} {F : Type ℓ} ⦃flt : Float64 F⦄ where
  unfoldable pub default_config : Config F
  default_config = record {
    challenge_mode = true;
    max_drawdown_pct = flt.lit 8 0;
    safe_mode_drawdown_pct = flt.lit 5 0;
    daily_soft_halt_pct = flt.lit 3 0;
    daily_hard_halt_pct = flt.lit 5 0;
    max_error_rate_5m_pct = flt.lit 10 0;
    max_hedge_drift_ms = pos 2000;
    stale_data_pause_ms = pos 5000;
    position_recon_interval_ms = pos 10_000;
    leg_mismatch_alert_ms = pos 3000;
    leg_mismatch_close_ms = pos 10_000;
    kelly_fraction = flt.lit 25 2;
    redis_addr = "";
  }

  -- `none` is the `nil` error.
  unfoldable pub validate : Config F → Option ConfigError
  validate c =
      let zero = flt.lit 0 0 in
      let hundred = flt.lit 100 0 in
      if flt.le c.max_drawdown_pct zero || flt.lt hundred c.max_drawdown_pct
      then some max_drawdown
      else if flt.le c.safe_mode_drawdown_pct zero
          || flt.le c.max_drawdown_pct c.safe_mode_drawdown_pct
      then some safe_mode_drawdown
      else if flt.le c.daily_soft_halt_pct zero
      then some daily_soft_halt
      else if flt.le c.daily_hard_halt_pct c.daily_soft_halt_pct
      then some daily_hard_halt
      else if flt.lt c.kelly_fraction zero || flt.lt (flt.lit 1 0) c.kelly_fraction
      then some kelly_fraction_range
      else if flt.le c.max_error_rate_5m_pct zero || flt.lt hundred c.max_error_rate_5m_pct
      then some max_error_rate
      else none
