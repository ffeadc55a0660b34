-- ===== src/Scanner/Engine.antt =====
-- internal/scanner/engine.go: the configuration, the state of the engine and its updates.
use trading_challenge.Prelude.{
  Bool, true, Option, none, some, List, [], ◌∷◌, foldl, String, ℤ, pos, Dict, lookup, insert, Time,
  Float64,
}
use trading_challenge.Scanner.Types.{Candle, Signal}
use trading_challenge.Scanner.Market.{MarketState, FundingSnapshot, OpenInterestSnapshot}
use trading_challenge.Scanner.RiskManager.{RiskConfig, default_risk_config}
use trading_challenge.Scanner.Guardrails.{
  GuardrailConfig, Guardrails, default_guardrail_config, new_guardrails,
}
use trading_challenge.Scanner.Tracker.{OutcomeTracker, new_outcome_tracker}
use trading_challenge.Scanner.Performance.{TradeRecord}
use trading_challenge.Scanner.Detectors.FundingExtreme
use trading_challenge.Scanner.Detectors.FundingExtreme.{FundingExtremeConfig}
use trading_challenge.Scanner.Detectors.OiAbsorption
use trading_challenge.Scanner.Detectors.OiAbsorption.{OiAbsorptionConfig}
use trading_challenge.Scanner.Detectors.RangeVwap
use trading_challenge.Scanner.Detectors.RangeVwap.{RangeVwapConfig}
use trading_challenge.Scanner.Detectors.LiqSweep
use trading_challenge.Scanner.Detectors.LiqSweep.{LiqSweepReclaimConfig}
use trading_challenge.Scanner.Detectors.TrendPullback
use trading_challenge.Scanner.Detectors.TrendPullback.{TrendPullbackConfig}
use trading_challenge.Scanner.Detectors.MultiTf
use trading_challenge.Scanner.Detectors.MultiTf.{MultiTfConfig}

pub record EngineConfig {ℓ} (F : Type ℓ) : Type ℓ where
  pub min_confluence : ℤ
  pub min_strength : F
  pub alert_validity_minutes : ℤ
  pub cooldown_per_symbol_ms : ℤ
  pub symbols : List String
  pub scan_interval_ms : ℤ
  pub initial_balance : F
  pub is_challenge : Bool
  pub funding_extreme : FundingExtremeConfig F
  pub oi_absorption : OiAbsorptionConfig F
  pub range_vwap : RangeVwapConfig F
  pub liq_sweep : LiqSweepReclaimConfig F
  pub trend_pullback : TrendPullbackConfig F
  pub multi_tf : MultiTfConfig
  pub risk : RiskConfig F
  pub guardrail : GuardrailConfig F

abbrev pub Detector {ℓ} : Type ℓ → Type ℓ
Detector F = MarketState F → Option (List (Signal F))

pub record Engine {ℓ} (F : Type ℓ) : Type ℓ where
  pub cfg : EngineConfig F
  pub detectors : List (Detector F)
  pub tracker : OutcomeTracker F
  pub guard : Guardrails F
  pub states : Dict (MarketState F)
  pub last_alert : Dict ℤ
  pub account_balance : F
  pub alert_seq : ℤ

module _ {ℓ} {F : Type ℓ} ⦃flt : Float64 F⦄ where
  unfoldable pub default_engine_config : EngineConfig F
  unfolding default_guardrail_config
  default_engine_config = record {
    min_confluence = pos 3;
    min_strength = flt.lit 5 1;
    alert_validity_minutes = pos 30;
    cooldown_per_symbol_ms = pos 300_000;
    symbols = "BTCUSDT" ∷ "ETHUSDT" ∷ "SOLUSDT" ∷ [];
    scan_interval_ms = pos 15_000;
    initial_balance = flt.lit 100_000 0;
    is_challenge = true;
    funding_extreme = FundingExtreme.default_config;
    oi_absorption = OiAbsorption.default_config;
    range_vwap = RangeVwap.default_config;
    liq_sweep = LiqSweep.default_config;
    trend_pullback = TrendPullback.default_config;
    multi_tf = MultiTf.default_config;
    risk = default_risk_config;
    guardrail = default_guardrail_config;
  }

  abbrev pub new_state : String → MarketState F
  new_state symbol = record {
    symbol = symbol;
    price = flt.lit 0 0;
    best_bid = flt.lit 0 0;
    best_ask = flt.lit 0 0;
    mark_price = flt.lit 0 0;
    volume_24h = flt.lit 0 0;
    ts_ms = pos 0;
    candles = [];
    funding_history = [];
    oi_history = [];
    funding_rate = flt.lit 0 0;
  }

  unfoldable pub detectors_of : EngineConfig F → List (Detector F)
  detectors_of cfg =
      FundingExtreme.detect cfg.funding_extreme
      ∷ OiAbsorption.detect cfg.oi_absorption
      ∷ RangeVwap.detect cfg.range_vwap
      ∷ LiqSweep.detect cfg.liq_sweep
      ∷ TrendPullback.detect cfg.trend_pullback
      ∷ MultiTf.detect cfg.multi_tf
      ∷ []

  -- `stored` is what the file of the trades holds.
  unfoldable pub new_engine :
      (now : Time) (stored : Option (List (TradeRecord F))) → EngineConfig F → Engine F
  unfolding detectors_of new_outcome_tracker new_guardrails insert
  new_engine now stored cfg = record {
    cfg = cfg;
    detectors = detectors_of cfg;
    tracker = new_outcome_tracker stored (pos 500);
    guard = new_guardrails now cfg.guardrail;
    states = foldl (λ states symbol. insert symbol (new_state symbol) states) [] cfg.symbols;
    last_alert = [];
    account_balance = cfg.initial_balance;
    alert_seq = pos 0;
  }

  -- An update of the market state of a symbol that the engine knows.
  unfoldable pub update_state : String → (MarketState F → MarketState F) → Engine F → Engine F
  unfolding lookup insert
  update_state symbol change e = elim (lookup symbol e.states) [
    | none ↦ e
    | some state ↦ record e { states = insert symbol (change state) e.states }
  ]

  unfoldable pub update_market_state :
      String
      → (price bid ask mark_price volume_24h funding_rate : F) → (ts_ms : ℤ) → Engine F
      → Engine F
  unfolding update_state
  update_market_state symbol price bid ask mark_price volume_24h funding_rate ts_ms =
      update_state symbol (λ state. record state {
        price = price;
        best_bid = bid;
        best_ask = ask;
        mark_price = mark_price;
        volume_24h = volume_24h;
        funding_rate = funding_rate;
        ts_ms = ts_ms;
      })

  unfoldable pub update_candles : String → (tf : String) → List (Candle F) → Engine F → Engine F
  unfolding update_state insert
  update_candles symbol tf candles =
      update_state symbol (λ state. record state { candles = insert tf candles state.candles })

  unfoldable pub update_funding_history : String → List (FundingSnapshot F) → Engine F → Engine F
  unfolding update_state
  update_funding_history symbol history =
      update_state symbol (λ state. record state { funding_history = history })

  unfoldable pub update_oi_history : String → List (OpenInterestSnapshot F) → Engine F → Engine F
  unfolding update_state
  update_oi_history symbol history =
      update_state symbol (λ state. record state { oi_history = history })

  unfoldable pub update_account_balance : F → Engine F → Engine F
  update_account_balance balance e = record e { account_balance = balance }
