-- ===== src/Risk/Daemon.antt =====
-- internal/risk/daemon.go: the daemon's state and its methods. A method returns the new daemon, and
-- takes each reading of the clock as an argument. The mutex makes each method atomic.
use trading_challenge.Prelude.{
  ℕ, zero, suc, Bool, true, false, ◌&&◌, none, some, List, [], ◌∷◌, ◌++◌, foldl, String, str_eq,
  length, get_elem?, set, take, ◌+◌, eq_ℤ, if◌then◌else◌, leb, ltb, ◌==◌, ℤ, pos, sub64, le_ℤ, Time,
  midnight, unix_milli, after, Decimal, greater_than, is_positive, Float64, Convert,
}
use trading_challenge.Risk.Types.{
  Mode, running, paused, safe, flatten, halted, rank, Severity, info, warn, critical, Alert, State,
}
use trading_challenge.Risk.Config.{Config}

pub record PositionSnapshot {ℓ} (D : Type ℓ) : Type ℓ where
  pub symbol : String
  pub side : String
  pub size : D
  pub ts_ms : ℤ

pub record FillEvent {ℓ} (D : Type ℓ) : Type ℓ where
  pub ts_ms : ℤ
  pub pnl_usd : D

pub record Daemon {ℓ κ} (D : Type ℓ) (F : Type κ) : Type (ℓ ⊔ κ) where
  pub cfg : Config F
  pub mode : Mode
  pub reason : String
  pub peak_equity_usd : D
  pub current_equity_usd : D
  pub daily_peak_equity : D
  pub last_daily_reset : Time
  pub fill_events : List (FillEvent D)
  pub error_events : List (FillEvent D)
  pub last_position_snap : List (PositionSnapshot D)
  pub last_snap_ts_ms : ℤ
  pub unhedged_since : ℤ
  pub challenge_phase : String

-- The severity of the alert of an escalation.
unfoldable pub severity_of : Mode → Severity
unfolding rank
severity_of target =
    if rank target == 1 then info else if leb 3 (rank target) then critical else warn

module _ {ℓ} {D : Type ℓ} where
  -- The loop of `pruneOlderThan`, over the item k that is read, the index i that is written next and
  -- the array that both share, with the number of rounds left. The result is the new i and the array.
  unfoldable pub prune_loop : ℤ → ℕ → ℕ → ℕ → List (FillEvent D) → ℕ × List (FillEvent D)
  prune_loop cutoff zero k i events = (i, events)
  prune_loop cutoff (suc n) k i events = elim (get_elem? events k) [
    | none ↦ (i, events)
    | some e ↦ elim (le_ℤ cutoff e.ts_ms) [
      | true ↦ prune_loop cutoff n (k + 1) (i + 1) (set events i e)
      | false ↦ prune_loop cutoff n (k + 1) i events
    ]
  ]

  unfoldable pub prune_older_than : List (FillEvent D) → ℤ → List (FillEvent D)
  unfolding prune_loop
  prune_older_than events cutoff =
      let (i, kept) = prune_loop cutoff (length events) 0 0 events in take i kept

module _ {ℓ} {D : Type ℓ} ⦃dec : Decimal D⦄ where
  -- The sizes, negative where the side is "Sell".
  unfoldable pub net_exposure : List (PositionSnapshot D) → D
  net_exposure =
      foldl (λ net p. dec.add net (if str_eq p.side "Sell" then dec.neg p.size else p.size))
        dec.nought

  unfoldable pub total_size : List (PositionSnapshot D) → D
  total_size = foldl (λ total p. dec.add total p.size) dec.nought

  -- More than a fraction of the total size is not hedged.
  unfoldable pub has_unhedged : D → List (PositionSnapshot D) → Bool
  has_unhedged factor positions =
      greater_than (dec.abs (net_exposure positions)) (dec.mul (total_size positions) factor)
      && is_positive (total_size positions)

module _ {ℓ κ} {D : Type ℓ} {F : Type κ} ⦃dec : Decimal D⦄ ⦃flt : Float64 F⦄
    ⦃conv : Convert D F⦄ where
  unfoldable pub new_daemon : Time → Config F → Daemon D F
  unfolding midnight
  new_daemon now cfg = record {
    cfg = cfg;
    mode = running;
    reason = "";
    peak_equity_usd = dec.nought;
    current_equity_usd = dec.nought;
    daily_peak_equity = dec.nought;
    last_daily_reset = midnight now;
    fill_events = [];
    error_events = [];
    last_position_snap = [];
    last_snap_ts_ms = pos 0;
    unhedged_since = pos 0;
    challenge_phase = if cfg.challenge_mode then "evaluation" else "";
  }

  unfoldable pub escalate_to : Mode → ℤ → String → Daemon D F → Daemon D F × Alert F
  unfolding rank
  escalate_to target ts reason d = (
    if ltb (rank d.mode) (rank target) then record d { mode = target; reason = reason } else d,
    record {
      ts_ms = ts;
      source = "risk.daemon";
      severity = severity_of target;
      message = reason;
      metric = "";
      value = flt.lit 0 0;
      threshold = flt.lit 0 0;
    },
  )

  -- The pruned daemon, and the percentage of errors.
  unfoldable pub error_rate_5m : ℤ → Daemon D F → Daemon D F × F
  error_rate_5m now d =
      let cutoff = sub64 now (pos 300_000) in
      let fills = prune_older_than d.fill_events cutoff in
      let errors = prune_older_than d.error_events cutoff in
      let total = length fills in
      (
        record d { fill_events = fills; error_events = errors },
        if total == 0
            then flt.lit 0 0
            else flt.mul (flt.div (flt.of_int (pos (length errors))) (flt.of_int (pos total)))
                (flt.lit 100 0),
      )

  -- An escalation whose alert is completed with the metric and appended.
  unfoldable pub raise_alert :
      Mode → ℤ → String → String → F → F → Daemon D F × List (Alert F) → Daemon D F × List (Alert F)
  raise_alert target now reason metric value threshold (d, alerts) =
      let (d', a) = escalate_to target now reason d in
      (d', alerts ++ (record a { metric = metric; value = value; threshold = threshold } ∷ []))

  -- dd.Div(peak).Mul(100).Float64()
  unfoldable pub drawdown_pct : D → D → F
  drawdown_pct peak current =
      conv.to_float (dec.mul (dec.div (dec.sub peak current) peak) (dec.of_int (pos 100)))

  -- The three parts of `evaluate`.
  unfoldable pub check_errors : ℤ → Daemon D F × List (Alert F) → Daemon D F × List (Alert F)
  check_errors now (d, alerts) =
      let (d', rate) = error_rate_5m now d in
      if flt.lt d.cfg.max_error_rate_5m_pct rate
      then raise_alert paused now "error rate exceeded threshold" "error_rate_5m_pct" rate
          d.cfg.max_error_rate_5m_pct (d', alerts)
      else (d', alerts)

  unfoldable pub check_overall : ℤ → Daemon D F × List (Alert F) → Daemon D F × List (Alert F)
  check_overall now (d, alerts) =
      let pct = drawdown_pct d.peak_equity_usd d.current_equity_usd in
      if is_positive d.peak_equity_usd && is_positive d.current_equity_usd
      then (if flt.le d.cfg.max_drawdown_pct pct
          then raise_alert halted now "overall drawdown exceeded max" "drawdown_pct" pct
              d.cfg.max_drawdown_pct (d, alerts)
          else if flt.le d.cfg.safe_mode_drawdown_pct pct
          then raise_alert safe now "overall drawdown exceeded safe threshold" "drawdown_pct" pct
              d.cfg.safe_mode_drawdown_pct (d, alerts)
          else (d, alerts))
      else (d, alerts)

  unfoldable pub check_daily : ℤ → Daemon D F × List (Alert F) → Daemon D F × List (Alert F)
  check_daily now (d, alerts) =
      let pct = drawdown_pct d.daily_peak_equity d.current_equity_usd in
      if is_positive d.daily_peak_equity && is_positive d.current_equity_usd
      then (if flt.le d.cfg.daily_hard_halt_pct pct
          then raise_alert halted now "daily drawdown exceeded hard halt" "daily_drawdown_pct" pct
              d.cfg.daily_hard_halt_pct (d, alerts)
          else if flt.le d.cfg.daily_soft_halt_pct pct
          then raise_alert flatten now "daily drawdown exceeded soft halt" "daily_drawdown_pct" pct
              d.cfg.daily_soft_halt_pct (d, alerts)
          else (d, alerts))
      else (d, alerts)

  unfoldable pub evaluate : ℤ → Daemon D F → Daemon D F × List (Alert F)
  evaluate now d = check_daily now (check_overall now (check_errors now (d, [])))

  unfoldable pub record_fill : Time → D → Bool → Daemon D F → Daemon D F × List (Alert F)
  record_fill t pnl is_error d =
      let now = unix_milli t in
      let e : FillEvent D = record { ts_ms = now; pnl_usd = pnl } in
      evaluate now (record d {
        fill_events = d.fill_events ++ (e ∷ []);
        error_events = if is_error then d.error_events ++ (e ∷ []) else d.error_events;
      })

  -- `today` is the second reading of the clock.
  unfoldable pub store_equity : Time → D → Daemon D F → Daemon D F
  unfolding midnight
  store_equity today equity d =
      let new_day = after (midnight today) d.last_daily_reset in
      let daily = if new_day then equity else d.daily_peak_equity in
      record d {
        current_equity_usd = equity;
        peak_equity_usd =
            if greater_than equity d.peak_equity_usd then equity else d.peak_equity_usd;
        daily_peak_equity = if greater_than equity daily then equity else daily;
        last_daily_reset = if new_day then midnight today else d.last_daily_reset;
      }

  unfoldable pub update_equity : Time → Time → D → Daemon D F → Daemon D F × List (Alert F)
  update_equity t today equity d = evaluate (unix_milli t) (store_equity today equity d)

  unfoldable pub tick : Time → Daemon D F → Daemon D F × List (Alert F)
  tick t d = evaluate (unix_milli t) d

  unfoldable pub record_position_snapshot :
      Time → List (PositionSnapshot D) → Daemon D F → Daemon D F × List (Alert F)
  record_position_snapshot t positions d₀ =
      let now = unix_milli t in
      let d = record d₀ { last_position_snap = positions; last_snap_ts_ms = now } in
      let since = if eq_ℤ d.unhedged_since (pos 0) then now else d.unhedged_since in
      let duration = sub64 now since in
      let d' = record d { unhedged_since = since } in
      if has_unhedged (conv.from_float (flt.lit 5 2)) positions
      then (if le_ℤ d.cfg.leg_mismatch_close_ms duration
          then (let (d'', a) =
                escalate_to flatten now "unhedged exposure exceeded close threshold" d' in
              (d'', a ∷ []))
          else if le_ℤ d.cfg.leg_mismatch_alert_ms duration
          then (
            d',
            record {
              ts_ms = now;
              source = "risk.daemon";
              severity = warn;
              message = "unhedged exposure detected";
              metric = "leg_mismatch_duration_ms";
              value = flt.of_int duration;
              threshold = flt.of_int d.cfg.leg_mismatch_alert_ms;
            }
                ∷ [],
          )
          else (d', []))
      else (record d { unhedged_since = pos 0 }, [])

  unfoldable pub set_mode : Mode → String → Daemon D F → Daemon D F
  set_mode m reason d = record d { mode = m; reason = reason }

  -- `CurrentState`: the error rate prunes the events, so the daemon changes too. `rated` is the last
  -- reading of the clock.
  unfoldable pub current_state : Time → Time → Daemon D F → Daemon D F × State F
  current_state t rated d =
      let (d', rate) = error_rate_5m (unix_milli rated) d in
      (
        d',
        record {
          mode = d.mode;
          ts_ms = unix_milli t;
          drawdown_pct =
              if is_positive d.peak_equity_usd
              then drawdown_pct d.peak_equity_usd d.current_equity_usd
              else flt.lit 0 0;
          daily_drawdown_pct =
              if is_positive d.daily_peak_equity
              then drawdown_pct d.daily_peak_equity d.current_equity_usd
              else flt.lit 0 0;
          peak_equity_usd = conv.to_float d.peak_equity_usd;
          current_equity_usd = conv.to_float d.current_equity_usd;
          error_rate_5m_pct = rate;
          reason = d.reason;
          challenge_phase = d.challenge_phase;
        },
      )
