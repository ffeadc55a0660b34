-- ===== src/Risk/Service.antt =====
-- cmd/risk-daemon/main.go: what the service does on each of its tickers. A round takes the answer of the
-- call that it starts with and the readings of the clock, and gives the new state and the effects in their
-- order: what goes to Redis and to the webhook. The errors of those calls are ignored, as in the source.
use trading_challenge.Prelude.{
  ℕ, ◌+◌, Option, none, some, List, [], ◌∷◌, ◌++◌, map, String, str_eq, true, if◌then◌else◌, ℤ, pos,
  Time, unix_milli, Decimal, Float64, Convert,
}
use trading_challenge.Exchange.{Position, AccountEquity}
use trading_challenge.Risk.Types.{flatten, halted, mode_string}
use trading_challenge.Risk.Reports.{
  text, decimals, of_alert, of_margin, of_trip, of_state, Effect, publish, set_equity, set_string,
  notify, level_string, bool_string, send_plain, report_alerts, report_mismatch, report_liquidation,
}
use trading_challenge.Risk.Config.{Config}
use trading_challenge.Risk.Daemon.{
  PositionSnapshot, Daemon, new_daemon, update_equity, tick, record_position_snapshot, set_mode,
  current_state,
}
use trading_challenge.Risk.Margin as Margin
use trading_challenge.Risk.CircuitBreaker as Circuit

-- An answer of the exchange: there is none without the keys of the account.
pub data Poll {ℓ} (A : Type ℓ) : Type ℓ where
  no_client : Poll A
  failed : String → Poll A
  polled : A → Poll A

-- A message of the market data.
pub record Quote {ℓ} (F : Type ℓ) : Type ℓ where
  pub symbol : String
  pub last_price : F
  pub best_bid : F
  pub best_ask : F
  pub ts_ms : ℤ

pub record Service {ℓ κ} (D : Type ℓ) (F : Type κ) : Type (ℓ ⊔ κ) where
  pub daemon : Daemon D F
  pub margin : Margin.Monitor D F
  pub breaker : Circuit.CircuitBreaker F

module _ {ℓ} {D : Type ℓ} where
  -- The positions as the daemon and as the monitor take them. Each snapshot reads the clock.
  unfoldable pub snapshots_of : (ℕ → Time) → ℕ → List (Position D) → List (PositionSnapshot D)
  snapshots_of clock i [] = []
  snapshots_of clock i (p ∷ rest) =
      record { symbol = p.symbol; side = p.side; size = p.quantity; ts_ms = unix_milli (clock i) }
      ∷ snapshots_of clock (i + 1) rest

  unfoldable pub margin_info : Position D → Margin.PositionInfo D
  margin_info p = record {
    symbol = p.symbol;
    mark_price = p.mark_price;
    liq_price = p.liq_price;
    side = p.side;
    notional = p.notional_usd;
  }

module _ {ℓ} {F : Type ℓ} ⦃flt : Float64 F⦄ where
  -- The configurations of `main`.
  unfoldable pub risk_config : Config F
  risk_config = record {
    challenge_mode = true;
    max_drawdown_pct = flt.lit 10 0;
    safe_mode_drawdown_pct = flt.lit 7 0;
    daily_soft_halt_pct = flt.lit 3 0;
    daily_hard_halt_pct = flt.lit 4 0;
    max_error_rate_5m_pct = flt.lit 20 0;
    max_hedge_drift_ms = pos 2000;
    stale_data_pause_ms = pos 3000;
    position_recon_interval_ms = pos 10_000;
    leg_mismatch_alert_ms = pos 5000;
    leg_mismatch_close_ms = pos 10_000;
    kelly_fraction = flt.lit 15 2;
    redis_addr = "";
  }

  unfoldable pub margin_config : Margin.Config F
  margin_config = record {
    warn_ratio_pct = flt.lit 60 0;
    critical_ratio_pct = flt.lit 75 0;
    halt_ratio_pct = flt.lit 85 0;
    liq_price_buffer_pct = flt.lit 5 0;
  }

  unfoldable pub breaker_config : Circuit.Config F
  breaker_config = record {
    price_move_pct_threshold = flt.lit 5 0;
    window_ms = pos 60_000;
    spread_multiplier_threshold = flt.lit 3 0;
    normal_spread_bps = flt.lit 2 0;
    cooldown_ms = pos 30_000;
    stale_quote_ms = pos 5000;
  }

module _ {ℓ κ} {D : Type ℓ} {F : Type κ} ⦃dec : Decimal D⦄ ⦃flt : Float64 F⦄
    ⦃conv : Convert D F⦄ where
  -- The mode that an alert on the margin sets, and what is sent with it.
  unfoldable pub escalate_margin : Margin.Alert F → Daemon D F → Daemon D F × List (Effect D F)
  unfolding set_mode send_plain
  escalate_margin a d = elim a.level [
    | Margin.halt ↦ (
      set_mode halted "margin ratio exceeded halt threshold" d,
      send_plain "HALT" "margin-monitor" (text a.message ∷ []) ∷ [],
    )
    | Margin.critical ↦ (
      set_mode flatten "margin ratio critical — flatten" d,
      send_plain "CRITICAL" "margin-monitor" (text a.message ∷ []) ∷ [],
    )
    | Margin.warn ↦ (d, [])
  ]

  unfoldable pub handle_margin : List (Margin.Alert F) → Daemon D F → Daemon D F × List (Effect D F)
  unfolding escalate_margin level_string
  handle_margin [] d = (d, [])
  handle_margin (a ∷ rest) d =
      let (d₁, sent) = escalate_margin a d in
      let (d₂, later) = handle_margin rest d₁ in
      (
        d₂,
        publish (of_margin a)
            ∷ notify (record {
              level = level_string a.level;
              source = "margin-monitor";
              message = text a.message ∷ [];
              metric = a.metric;
              value = decimals 2 a.value ∷ [];
            })
            ∷ (sent ++ later),
      )

  unfoldable pub new_service : Time → Service D F
  unfolding risk_config margin_config breaker_config new_daemon Margin.new_monitor
  new_service now = record {
    daemon = new_daemon now risk_config;
    margin = Margin.new_monitor margin_config;
    breaker = record { cfg = breaker_config; state = [] };
  }

  -- The round of the equity: t and today are read by `UpdateEquity`, stamp for the margin, later by `Tick`.
  unfoldable pub equity_round :
      Time
      → Time
      → Time
      → Time
      → Poll (AccountEquity D)
      → Service D F
      → Service D F × List (Effect D F)
  unfolding update_equity report_alerts Margin.update_margin handle_margin tick
  equity_round t today stamp later no_client s = (s, [])
  equity_round t today stamp later (failed err) s = (
    s,
    notify (record {
      level = "WARN";
      source = "risk-daemon";
      message = text "equity poll failed: " ∷ text err ∷ [];
      metric = "";
      value = [];
    })
        ∷ [],
  )
  equity_round t today stamp later (polled eq) s =
      let (d₁, alerts) = update_equity t today eq.total_equity s.daemon in
      let snap : Margin.Snapshot D = record {
        total_equity = eq.total_equity;
        total_margin_used = eq.total_margin;
        available_margin = eq.available_balance;
        ts_ms = unix_milli stamp;
      } in
      let (m, margin_alerts) = Margin.update_margin snap s.margin in
      let (d₂, sent) = handle_margin margin_alerts d₁ in
      let (d₃, tick_alerts) = tick later d₂ in
      (
        record s { daemon = d₃; margin = m },
        report_alerts alerts
            ++ (set_equity eq.total_equity 30
                ∷ (sent ++ map (λ a. publish (of_alert a)) tick_alerts)),
      )

  -- The round of the positions: `clock i` stamps position i, t is read by the daemon and checked by the
  -- monitor.
  unfoldable pub position_round :
      (ℕ → Time)
      → Time
      → Time
      → Poll (List (Position D))
      → Service D F
      → Service D F × List (Effect D F)
  unfolding snapshots_of margin_info record_position_snapshot report_mismatch
      Margin.update_positions report_liquidation
  position_round clock t checked no_client s = (s, [])
  position_round clock t checked (failed err) s = (s, [])
  position_round clock t checked (polled positions) s =
      let (d, alerts) = record_position_snapshot t (snapshots_of clock 0 positions) s.daemon in
      let (m, liq_alerts) = Margin.update_positions checked (map margin_info positions) s.margin in
      (record s { daemon = d; margin = m }, report_mismatch alerts ++ report_liquidation liq_alerts)

  -- The round of the market data, over the batch that was read: `none` is a message that does not decode.
  unfoldable pub quotes_round :
      (ℕ → Time) → ℕ → List (Option (Quote F)) → Service D F → Service D F × List (Effect D F)
  unfolding Circuit.record_quote send_plain
  quotes_round clock i [] s = (s, [])
  quotes_round clock i (none ∷ rest) s = quotes_round clock (i + 1) rest s
  quotes_round clock i (some q ∷ rest) s =
      let (b, reason) =
        Circuit.record_quote q.symbol q.last_price q.best_bid q.best_ask q.ts_ms s.breaker in
      let (s', later) = quotes_round clock (i + 1) rest (record s { breaker = b }) in
      if str_eq reason "" then (s', later) else (
        s',
        publish (of_trip q.symbol reason (unix_milli (clock i)))
            ∷ send_plain "CRITICAL" "circuit-breaker"
                (text "CIRCUIT BREAKER TRIPPED: " ∷ text q.symbol ∷ text " — " ∷ text reason ∷ [])
            ∷ later,
      )

  -- The round of the state: t and rated are read by `CurrentState`, now by `IsOpenAny`.
  unfoldable pub state_round : Time → Time → ℤ → Service D F → Service D F × List (Effect D F)
  unfolding current_state Circuit.is_open_any Margin.current_ratio_pct mode_string bool_string
  state_round t rated now s =
      let (d, st) = current_state t rated s.daemon in
      (
        record s { daemon = d },
        publish (of_state st)
            ∷ set_string "risk:mode" (text (mode_string st.mode)) 0
            ∷ set_string "circuit_breaker:open"
                (text (bool_string (Circuit.is_open_any now s.breaker))) 30
            ∷ set_string "margin:ratio_pct" (decimals 2 (Margin.current_ratio_pct s.margin)) 30
            ∷ [],
      )

  -- `publishCBState`
  unfoldable pub publish_cb_state : ℤ → Service D F → List (Effect D F)
  unfolding Circuit.is_open_any bool_string
  publish_cb_state now s =
      set_string "circuit_breaker:open" (text (bool_string (Circuit.is_open_any now s.breaker))) 10
      ∷ []
