-- ===== src/Execution/Types.antt =====
-- internal/execution/types.go and config.go: the events, the summary and the configuration, and the result
-- of a leg of executor.go.
use trading_challenge.Prelude.{Bool, false, String, ℤ, pos, Decimal, Float64, if◌then◌else◌, eq_ℤ}
use trading_challenge.Exchange.{Category, unset}

pub data EventType : Type 0 where
  order_sent order_filled order_partial order_canceled order_rejected order_retry : EventType
  hedge_drift emergency_unwind hedge_failed reconcile : EventType

pub record ExecutionEvent {ℓ} (F : Type ℓ) : Type ℓ where
  pub event_type : EventType
  pub intent_id : String
  pub leg_index : ℤ
  pub symbol : String
  pub action : String
  pub strategy : String
  pub market : String
  pub requested_notional_usd : F
  pub filled_notional_usd : F
  pub filled_price : F
  pub slippage_bps_actual : F
  pub fees_usd_actual : F
  pub ts_ms : ℤ
  pub latency_ms : ℤ

pub record FillSummary {ℓ} (F : Type ℓ) : Type ℓ where
  pub intent_id : String
  pub strategy : String
  pub symbol : String
  pub hedge_symbol : String
  pub buy_price : F
  pub sell_price : F
  pub total_fees : F
  pub net_pnl : F
  pub ts_ms : ℤ

pub record Config {ℓ} (F : Type ℓ) : Type ℓ where
  pub max_retries_per_leg : ℤ
  pub hedge_drift_max_ms : ℤ
  pub min_partial_fill_pct : F
  pub recon_delay_ms : ℤ
  pub recon_interval_ms : ℤ
  pub fee_bps_taker : F
  pub fee_bps_maker : F

pub record LegResult {ℓ} (D : Type ℓ) : Type ℓ where
  pub filled : Bool
  pub filled_qty : D
  pub filled_usd : D
  pub fill_price : D
  pub fees_usd : D
  pub order_id : String
  pub symbol : String
  pub category : Category
  pub partial : Bool
  pub fill_ts_ms : ℤ

module _ {ℓ} {D : Type ℓ} ⦃dec : Decimal D⦄ where
  -- The zero value of `legResult`.
  abbrev pub no_result : LegResult D
  no_result = record {
    filled = false;
    filled_qty = dec.nought;
    filled_usd = dec.nought;
    fill_price = dec.nought;
    fees_usd = dec.nought;
    order_id = "";
    symbol = "";
    category = unset;
    partial = false;
    fill_ts_ms = pos 0;
  }

module _ {ℓ} {F : Type ℓ} ⦃flt : Float64 F⦄ where
  unfoldable pub default_config : Config F
  default_config = record {
    max_retries_per_leg = pos 3;
    hedge_drift_max_ms = pos 2000;
    min_partial_fill_pct = flt.lit 10 2;
    recon_delay_ms = pos 2000;
    recon_interval_ms = pos 60_000;
    fee_bps_taker = flt.lit 55 1;
    fee_bps_maker = flt.lit 2 0;
  }

  -- The defaults that `NewExecutor` gives to what is zero.
  unfoldable pub executor_config : Config F → Config F
  executor_config cfg = record cfg {
    max_retries_per_leg =
        if eq_ℤ cfg.max_retries_per_leg (pos 0) then pos 3 else cfg.max_retries_per_leg;
    hedge_drift_max_ms =
        if eq_ℤ cfg.hedge_drift_max_ms (pos 0) then pos 2000 else cfg.hedge_drift_max_ms;
    min_partial_fill_pct =
        if flt.eq cfg.min_partial_fill_pct (flt.lit 0 0)
        then flt.lit 10 2
        else cfg.min_partial_fill_pct;
    recon_delay_ms = if eq_ℤ cfg.recon_delay_ms (pos 0) then pos 2000 else cfg.recon_delay_ms;
  }

  -- An event of an intent with the fields that every event sets; the others are zero values.
  abbrev pub bare_event :
      EventType → (intent_id strategy : String) → ℤ → (symbol : String) → ℤ → ExecutionEvent F
  bare_event event_type intent_id strategy leg_index symbol ts = record {
    event_type = event_type;
    intent_id = intent_id;
    leg_index = leg_index;
    symbol = symbol;
    action = "";
    strategy = strategy;
    market = "";
    requested_notional_usd = flt.lit 0 0;
    filled_notional_usd = flt.lit 0 0;
    filled_price = flt.lit 0 0;
    slippage_bps_actual = flt.lit 0 0;
    fees_usd_actual = flt.lit 0 0;
    ts_ms = ts;
    latency_ms = pos 0;
  }
