-- ===== src/Risk/Examples.antt =====
-- The theorems of the risk engine with its default configuration, in ten-thousandths of a dollar.
use Prim.Native.Nat.{max}
use trading_challenge.Prelude.{
  All, inl, inr, map, ℕ, ◌*◌, ◌+◌, ◌≤◌, ◌≡◌, refl, ◌⊎◌, ◌↔◌, true, false, List, [], ◌∷◌, length,
  select, some_of, String, str_eq, ℤ, pos, negsuc, ◌+ℤ◌, ◌-ℤ◌, ◌*ℤ◌, Time, unix_milli, floor_div,
  le_ℤ, add64, sub64, mul64, if◌then◌else◌, lookup, le_ℤ,
}
use trading_challenge.Prelude.Fixed.{
  fixed_decimal, fixed_float, fixed_convert, fixed_IsField, scaled, mul_fixed, div_fixed, abs_fixed,
  neg_fixed,
}
use trading_challenge.Exchange.{Position, AccountEquity}
use trading_challenge.Risk.Service.{Service, polled, new_service, equity_round, position_round}
use trading_challenge.Risk.Rounds.{margin_rank, equity_round-rank, as_long, sides_ignored}
use trading_challenge.Risk.Types.{flatten, halted, rank}
use trading_challenge.Risk.Config.{Config, default_config}
use trading_challenge.Risk.Daemon.{
  check_daily, check_errors, store_equity, error_rate_5m, PositionSnapshot, FillEvent, Daemon,
  new_daemon, update_equity, evaluate, record_position_snapshot, prune_older_than, has_unhedged,
  net_exposure, total_size, check_overall, drawdown_pct, raise_alert, escalate_to,
}
use trading_challenge.Risk.Prune.{prune_older_than-eq-select}
use trading_challenge.Risk.Escalation.{
  error_demand, overall_demand, daily_demand, SameEquity, evaluate_lem, wiped_out_ignored,
}
use trading_challenge.Risk.Steps.{Call, fill, equity, query, run, run-rank, Inv, peaks_in_order}
use trading_challenge.Risk.Mismatch.{snapshots, mismatch_clock}
use trading_challenge.Risk.Margin as Margin
use trading_challenge.Risk.Limits.{levels, update_margin_agrees}
use trading_challenge.Risk.CircuitBreaker as Circuit
use trading_challenge.Risk.Breaker.{tripped_opens}

-- Whole dollars.
abbrev usd : ℕ → ℤ
usd n = pos (n * 10_000)

-- Second k of the noon of a day.
abbrev at : ℕ → Time
at k = pos (20_000 * 86_400_000_000_000 + (43_200 + k) * 1_000_000_000)

abbrev cfg : Config ℤ
unfolding default_config
cfg = default_config

abbrev start : Daemon ℤ ℤ
start = new_daemon (at 0) cfg

abbrev funded : Daemon ℤ ℤ
funded = (update_equity (at 0) (at 0) (usd 100_000) start).0

abbrev fallen : Daemon ℤ ℤ
fallen = record start { peak_equity_usd = usd 100_000; current_equity_usd = usd 91_500 }

-- A fall by 8.5 percent from the peak halts.
overall_run : (check_overall (pos 0) (fallen, [])).0.mode ≡ halted
unfolding check_overall drawdown_pct raise_alert escalate_to new_daemon mul_fixed div_fixed scaled
    ◌-ℤ◌ floor_div default_config rank
overall_run = refl

evaluate_lem_example :
    let e = (evaluate (unix_milli (at 5)) funded).0 in
    let cutoff = sub64 (unix_milli (at 5)) (pos 300_000) in
    (rank e.mode
      ≡ max
          (max (rank funded.mode) (error_demand (unix_milli (at 5)) funded))
          (max (overall_demand funded) (daily_demand funded)))
    × SameEquity funded e
    × (e.fill_events ≡ prune_older_than funded.fill_events cutoff)
    × (e.error_events ≡ prune_older_than funded.error_events cutoff)
evaluate_lem_example = evaluate_lem (unix_milli (at 5)) funded

abbrev calls : List (Call ℤ)
calls =
    fill (at 1) (usd 20) false
    ∷ equity (at 2) (at 2) (usd 97_000)
    ∷ fill (at 3) (usd 0) true
    ∷ query (at 4) (at 4)
    ∷ []

run-rank_example : rank funded.mode ≤ rank (run calls funded).mode
run-rank_example = run-rank calls funded (tt, (tt, (tt, (tt, tt))))

peaks_in_order_example :
    let d = run calls (new_daemon (at 0) cfg) in
    Inv d × (length d.error_events ≤ length d.fill_events)
peaks_in_order_example = peaks_in_order (fixed_IsField.ordered) (at 0) cfg calls

abbrev events : List (FillEvent ℤ)
events =
    record { ts_ms = pos 5; pnl_usd = usd 1 }
    ∷ record { ts_ms = pos 2; pnl_usd = usd 2 }
    ∷ record { ts_ms = pos 9; pnl_usd = usd 3 }
    ∷ []

prune_older_than-eq-select_example :
    prune_older_than events (pos 5) ≡ select (λ e. le_ℤ (pos 5) e.ts_ms) events
prune_older_than-eq-select_example = prune_older_than-eq-select events (pos 5)

wiped_out_ignored_example :
    let (e, alerts) = update_equity (at 1) (at 1) (negsuc 0) funded in
    (e.current_equity_usd ≡ negsuc 0)
    × (rank e.mode ≡ max (rank funded.mode) (error_demand (unix_milli (at 1)) funded))
    × (length alerts ≡ error_demand (unix_milli (at 1)) funded)
    × All (λ a. a.metric ≡ "error_rate_5m_pct") alerts
wiped_out_ignored_example = wiped_out_ignored (at 1) (at 1) (negsuc 0) funded refl

abbrev buy : PositionSnapshot ℤ
buy = record { symbol = "BTCUSDT"; side = "Buy"; size = usd 1; ts_ms = pos 0 }

abbrev sell : PositionSnapshot ℤ
sell = record { symbol = "ETHUSDT"; side = "Sell"; size = usd 1; ts_ms = pos 0 }

buy_unhedged : has_unhedged (pos 500) (buy ∷ []) ≡ true
unfolding has_unhedged net_exposure total_size mul_fixed abs_fixed floor_div ◌*ℤ◌ ◌+ℤ◌
buy_unhedged = refl

pair_hedged : has_unhedged (pos 500) (buy ∷ sell ∷ []) ≡ false
unfolding has_unhedged net_exposure total_size mul_fixed abs_fixed neg_fixed floor_div ◌*ℤ◌ ◌+ℤ◌
pair_hedged = refl

mismatch_clock_example :
    let before_last =
      snapshots ((at 4, buy ∷ []) ∷ []) (record_position_snapshot (at 1) (buy ∷ []) start).0 in
    rank (record_position_snapshot (at 12) (buy ∷ []) before_last).0.mode ≡ (
      if le_ℤ start.cfg.leg_mismatch_close_ms (sub64 (unix_milli (at 12)) (unix_milli (at 1)))
      then max (rank before_last.mode) 3
      else rank before_last.mode)
unfolding new_daemon unix_milli
mismatch_clock_example =
    mismatch_clock (at 1) (at 12) (buy ∷ []) (buy ∷ []) ((at 4, buy ∷ []) ∷ []) start refl refl
      buy_unhedged (buy_unhedged, tt) buy_unhedged

abbrev margin : Margin.Snapshot ℤ
margin = record {
  total_equity = usd 100;
  total_margin_used = usd 80;
  available_margin = usd 20;
  ts_ms = pos 1;
}

abbrev monitor : Margin.Monitor ℤ ℤ
monitor = Margin.new_monitor Margin.default_config

update_margin_agrees_example :
    let (m', alerts) = Margin.update_margin margin monitor in
    ((levels alerts ≡ Margin.halt ∷ []) ↔ (Margin.needs_halt m' ≡ true))
    × (((levels alerts ≡ Margin.halt ∷ []) ⊎ (levels alerts ≡ Margin.critical ∷ []))
        ↔ ((Margin.needs_halt m' ≡ true) ⊎ (Margin.needs_reduce_position m' ≡ true)))
    × ((alerts ≡ [])
        ⊎ (levels alerts ≡ Margin.warn ∷ [])
        ⊎ (levels alerts ≡ Margin.critical ∷ [])
        ⊎ (levels alerts ≡ Margin.halt ∷ []))
update_margin_agrees_example = update_margin_agrees margin monitor refl

abbrev samples : List (Circuit.Sample ℤ)
samples = record { price = usd 100; ts_ms = pos 5 } ∷ record { price = usd 99; ts_ms = pos 7 } ∷ []

abbrev btc : String
btc = "BTCUSDT"

abbrev eth : String
eth = "ETHUSDT"

abbrev quoted : Circuit.SymbolState ℤ
quoted = record {
  samples = samples;
  last_bid = usd 99;
  last_ask = usd 100;
  last_quote_ts_ms = pos 7;
  tripped_until = pos 0;
  trip_reason = "";
}

abbrev breaker : Circuit.CircuitBreaker ℤ
breaker = record { cfg = Circuit.default_config; state = (btc, quoted) ∷ [] }

crash_trips :
    str_eq (Circuit.record_quote btc (usd 90) (usd 90) (usd 91) (pos 9) breaker).1 "" ≡ false
unfolding Circuit.record_quote Circuit.quote Circuit.state_of Circuit.default_config Circuit.prune
    Circuit.is_rapid_move Circuit.is_wide some_of lookup sub64 mul64 mul_fixed div_fixed abs_fixed
crash_trips = refl

-- A fall from 100 to 90 in a second.
tripped_opens_example :
    let out = Circuit.record_quote btc (usd 90) (usd 90) (usd 91) (pos 9) breaker in
    (Circuit.is_open (pos 10) btc out.0 ≡ true) × (Circuit.trip_reason btc out.0 ≡ out.1)
unfolding Circuit.default_config add64
tripped_opens_example =
    tripped_opens btc (usd 90) (usd 90) (usd 91) (pos 9) (pos 10) breaker crash_trips refl refl

-- A daemon that was halted, and an account with 80 percent of its equity in use as margin: the round moves
-- it to FLATTEN.
abbrev service : Service ℤ ℤ
service = record (new_service (at 0)) { daemon = record start { mode = halted } }

abbrev account : AccountEquity ℤ
account = record {
  total_equity = usd 100_000;
  available_balance = usd 20_000;
  unrealized_pnl = usd 0;
  total_margin = usd 80_000;
}

equity_round-rank_example :
    let d = (update_equity (at 1) (at 1) (usd 100_000) service.daemon).0 in
    let s' = (equity_round (at 1) (at 1) (at 1) (at 2) (polled account) service).0 in
    rank s'.daemon.mode ≡ (
      max
        (max (margin_rank s'.margin (rank d.mode)) (error_demand (unix_milli (at 2)) d))
        (max (overall_demand d) (daily_demand d)))
equity_round-rank_example = equity_round-rank (at 1) (at 1) (at 1) (at 2) account service refl

margin_run :
    (equity_round (at 1) (at 1) (at 1) (at 2) (polled account) service).0.daemon.mode ≡ flatten
unfolding equity_round evaluate check_daily check_overall check_errors Margin.ratio_alert
    new_service Margin.ratio_pct mul_fixed div_fixed scaled store_equity cfg error_rate_5m
    prune_older_than drawdown_pct ◌-ℤ◌
margin_run = refl

abbrev position : String → String → Position ℤ
position symbol side = record {
  symbol = symbol;
  side = side;
  quantity = usd 1;
  entry_price = usd 100;
  mark_price = usd 100;
  unrealized_pnl = usd 0;
  leverage = usd 2;
  notional_usd = usd 100;
  liq_price = usd 50;
}

abbrev pair : List (Position ℤ)
pair = position btc "LONG" ∷ position eth "SHORT" ∷ []

sides_ignored_example :
    let (a, effects) = position_round at (at 3) (at 4) (polled pair) service in
    let (b, others) = position_round at (at 3) (at 4) (polled (map as_long pair)) service in
    (a.daemon.mode ≡ b.daemon.mode) × (effects ≡ others)
sides_ignored_example = sides_ignored at (at 3) (at 4) pair service (inl refl, (inr refl, tt))
