-- ===== src/Arb.antt =====
-- internal/arb/types.go: the trade intents that the services exchange.
pub mod Pair
pub mod Stats
pub mod Engine
pub mod Evaluate
pub mod Window
pub mod Reversal
mod Examples
use trading_challenge.Prelude.{ℤ, String, List}

pub record TradeLeg {ℓ} (F : Type ℓ) : Type ℓ where
  pub action : String
  pub type : String
  pub market : String
  pub symbol : String
  pub notional_usd : F
  pub max_slippage_bps : F
  pub price_limit : F

pub record ExpectedMetrics {ℓ} (F : Type ℓ) : Type ℓ where
  pub edge_bps_gross : F
  pub edge_bps_net : F
  pub profit_usd_net : F
  pub fees_usd_est : F
  pub slippage_usd_est : F
  pub funding_rate_8h_bps : F
  pub annual_yield_pct_net : F

pub record IntentConstraints : Type 0 where
  pub max_age_ms : ℤ
  pub hedge_preference : String
  pub cooldown_key : String

pub record TradeIntent {ℓ} (F : Type ℓ) : Type ℓ where
  pub intent_id : String
  pub strategy : String
  pub symbol : String
  pub hedge_symbol : String
  pub hedge_beta : F
  pub ts_ms : ℤ
  pub expires_ms : ℤ
  pub legs : List (TradeLeg F)
  pub expected : ExpectedMetrics F
  pub constraints : IntentConstraints
