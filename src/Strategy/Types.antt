-- ===== src/Strategy/Types.antt =====
-- internal/strategy/types.go: the conditions of a pair, the decisions and the evaluation. The text of a
-- reason is a value that holds what the text prints.
use trading_challenge.Prelude.{ℤ, String, List}
use trading_challenge.Arb.{TradeIntent}

pub data StrategyType : Type 0 where
  funding_carry basis_reversion hold : StrategyType
  other : String → StrategyType

pub record PairCondition {ℓ} (F : Type ℓ) : Type ℓ where
  pub primary_symbol : String
  pub primary_price : F
  pub primary_funding : F
  pub hedge_symbol : String
  pub hedge_price : F
  pub hedge_funding : F
  pub funding_diff_bps : F
  pub beta : F
  pub correlation : F
  pub spread_z_score : F
  pub spread_mean : F
  pub spread_std_dev : F
  pub regime : String
  pub ts_ms : ℤ

pub record MarketCondition {ℓ} (F : Type ℓ) : Type ℓ where
  pub symbol : String
  pub perp_price : F
  pub index_price : F
  pub funding_rate : F
  pub perp_premium : F
  pub basis_z_score : F
  pub basis_mean : F
  pub basis_std_dev : F
  pub regime : String
  pub ts_ms : ℤ

-- What `shouldExit` answers.
pub data ExitReason {ℓ} (F : Type ℓ) : Type ℓ where
  correlation_degraded : F → ExitReason F
  funding_diff_reversed regime_bearish : ExitReason F
  diff_below_threshold : ℤ → ExitReason F
  spread_converged spread_adverse spread_timeout : ExitReason F

-- The reason of a decision.
pub data Reason {ℓ} (F : Type ℓ) : Type ℓ where
  exit : ExitReason F → Reason F
  low_correlation : (correlation minimum : F) → Reason F
  carry : (diff annual correlation beta : F) → String → Reason F
  reversion : (z_score edge correlation : F) → Reason F
  nothing : (diff z_score correlation : F) → String → Reason F

pub record Decision {ℓ} (F : Type ℓ) : Type ℓ where
  pub primary_symbol : String
  pub hedge_symbol : String
  pub strategy : StrategyType
  pub confidence : F
  pub reason : Reason F
  pub allocation_pct : F
  pub expected_edge_bps : F
  pub expected_holding_time : String

pub record Evaluation {ℓ} (F : Type ℓ) : Type ℓ where
  pub entries : List (TradeIntent F)
  pub exits : List (TradeIntent F)
  pub decisions : List (Decision F)

pub record PositionState {ℓ} (F : Type ℓ) : Type ℓ where
  pub primary_symbol : String
  pub hedge_symbol : String
  pub strategy : StrategyType
  pub notional_usd : F
  pub hedge_beta : F
  pub entry_spread : F
  pub entry_rate : F
  pub entry_time_ms : ℤ
