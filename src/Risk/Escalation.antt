-- ===== src/Risk/Escalation.antt =====
-- `evaluate` against an independent description: the mode that the metrics demand, joined with the
-- mode that stands; and what it leaves alone.
use Prim.Native.Nat.{max}
use trading_challenge.Prelude.{
  ℕ, ◌≤◌, ◌≡◌, refl, ◌∙◌, false, length, All, ◌&&◌, List, [], arith, ℤ, pos, sub64, Time,
  unix_milli, if◌then◌else◌, Decimal, is_positive, Float64, Convert,
}
use trading_challenge.Risk.Types.{rank, Alert}
use trading_challenge.Risk.Daemon.{
  Daemon, prune_older_than, escalate_to, raise_alert, error_rate_5m, drawdown_pct, check_errors,
  check_overall, check_daily, evaluate, store_equity, update_equity,
}

module _ {ℓ κ} {D : Type ℓ} {F : Type κ} ⦃dec : Decimal D⦄ ⦃flt : Float64 F⦄
    ⦃conv : Convert D F⦄ where
  -- The ranks that the three metrics demand: 0 where a metric is in order.
  abbrev pub error_demand : ℤ → Daemon D F → ℕ
  error_demand now d = if flt.lt d.cfg.max_error_rate_5m_pct (error_rate_5m now d).1 then 1 else 0

  abbrev pub overall_demand : Daemon D F → ℕ
  overall_demand d =
      let pct = drawdown_pct d.peak_equity_usd d.current_equity_usd in
      if is_positive d.peak_equity_usd && is_positive d.current_equity_usd
      then (if flt.le d.cfg.max_drawdown_pct pct
          then 4
          else if flt.le d.cfg.safe_mode_drawdown_pct pct
          then 2
          else 0)
      else 0

  abbrev pub daily_demand : Daemon D F → ℕ
  daily_demand d =
      let pct = drawdown_pct d.daily_peak_equity d.current_equity_usd in
      if is_positive d.daily_peak_equity && is_positive d.current_equity_usd
      then (if flt.le d.cfg.daily_hard_halt_pct pct
          then 4
          else if flt.le d.cfg.daily_soft_halt_pct pct
          then 3
          else 0)
      else 0

  -- What no part of `evaluate` touches.
  pub record SameEquity (d e : Daemon D F) : Type (ℓ ⊔ κ) where
    pub same_cfg : e.cfg ≡ d.cfg
    pub same_peak : e.peak_equity_usd ≡ d.peak_equity_usd
    pub same_current : e.current_equity_usd ≡ d.current_equity_usd
    pub same_daily : e.daily_peak_equity ≡ d.daily_peak_equity
    pub same_unhedged : e.unhedged_since ≡ d.unhedged_since
    pub same_reset : e.last_daily_reset ≡ d.last_daily_reset

  check_errors_lem :
      (now : ℤ) (d : Daemon D F) (alerts : List (Alert F))
      → let e = (check_errors now (d, alerts)).0 in
        (rank e.mode ≡ max (rank d.mode) (error_demand now d))
        × SameEquity d e
        × (e.fill_events ≡ prune_older_than d.fill_events (sub64 now (pos 300_000)))
        × (e.error_events ≡ prune_older_than d.error_events (sub64 now (pos 300_000)))
  unfolding check_errors raise_alert escalate_to error_rate_5m
  check_errors_lem now d alerts = ground arith

  check_overall_lem :
      (now : ℤ) (d : Daemon D F) (alerts : List (Alert F))
      → let e = (check_overall now (d, alerts)).0 in
        (rank e.mode ≡ max (rank d.mode) (overall_demand d))
        × SameEquity d e
        × (e.fill_events ≡ d.fill_events)
        × (e.error_events ≡ d.error_events)
  unfolding check_overall raise_alert escalate_to
  check_overall_lem now d alerts = ground arith

  check_daily_lem :
      (now : ℤ) (d : Daemon D F) (alerts : List (Alert F))
      → let e = (check_daily now (d, alerts)).0 in
        (rank e.mode ≡ max (rank d.mode) (daily_demand d))
        × SameEquity d e
        × (e.fill_events ≡ d.fill_events)
        × (e.error_events ≡ d.error_events)
  unfolding check_daily raise_alert escalate_to
  check_daily_lem now d alerts = ground arith

  pub overall_demand_congr :
      (d e : Daemon D F) → SameEquity d e → overall_demand e ≡ overall_demand d
  overall_demand_congr d e s = rw (s.same_cfg, s.same_peak, s.same_current)

  pub daily_demand_congr : (d e : Daemon D F) → SameEquity d e → daily_demand e ≡ daily_demand d
  daily_demand_congr d e s = rw (s.same_cfg, s.same_daily, s.same_current)

  SameEquity-trans : {a b c : Daemon D F} → SameEquity a b → SameEquity b c → SameEquity a c
  SameEquity-trans s t = record {
    same_cfg = t.same_cfg ∙ s.same_cfg;
    same_peak = t.same_peak ∙ s.same_peak;
    same_current = t.same_current ∙ s.same_current;
    same_daily = t.same_daily ∙ s.same_daily;
    same_unhedged = t.same_unhedged ∙ s.same_unhedged;
    same_reset = t.same_reset ∙ s.same_reset;
  }

  -- The mode after an evaluation is the worst of the mode before and of what the error rate, the
  -- overall drawdown and the daily drawdown demand; the equity figures and the configuration stay, and
  -- the two lists of events lose those older than five minutes.
  pub evaluate_lem :
      (now : ℤ) (d : Daemon D F)
      → let e = (evaluate now d).0 in
        let cutoff = sub64 now (pos 300_000) in
        (rank e.mode
          ≡ max (max (rank d.mode) (error_demand now d)) (max (overall_demand d) (daily_demand d)))
        × SameEquity d e
        × (e.fill_events ≡ prune_older_than d.fill_events cutoff)
        × (e.error_events ≡ prune_older_than d.error_events cutoff)
  unfolding evaluate
  evaluate_lem now d =
      let a = check_errors now (d, []) in
      let b = check_overall now a in
      let (ra, sa, fa, ea) = check_errors_lem now d [] in
      let (rb, sb, fb, eb) = check_overall_lem now a.0 a.1 in
      let (rc, sc, fc, ec) = check_daily_lem now b.0 b.1 in
      let sab = SameEquity-trans sa sb in
      (
        omega (arith, ra, rb, rc, overall_demand_congr d a.0 sa, daily_demand_congr d b.0 sab),
        SameEquity-trans sab sc,
        fc ∙ fb ∙ fa,
        ec ∙ eb ∙ ea,
      )

  -- An evaluation never moves to a milder mode.
  pub rank-evaluate-le : (now : ℤ) (d : Daemon D F) → rank d.mode ≤ rank (evaluate now d).0.mode
  rank-evaluate-le now d = omega (arith, (evaluate_lem now d).0)

  store_equity_mode :
      (today : Time) (equity : D) (d : Daemon D F)
      → ((store_equity today equity d).mode ≡ d.mode)
        × ((store_equity today equity d).current_equity_usd ≡ equity)
        × ((store_equity today equity d).cfg ≡ d.cfg)
        × ((store_equity today equity d).fill_events ≡ d.fill_events)
        × ((store_equity today equity d).error_events ≡ d.error_events)
  unfolding store_equity
  store_equity_mode today equity d = (refl, refl, refl, refl, refl)

  -- What an update reports of the error rate.
  error_alerts_lem :
      (now : ℤ) (d : Daemon D F)
      → let alerts = (check_errors now (d, [])).1 in
        (length alerts ≡ error_demand now d) × All (λ a. a.metric ≡ "error_rate_5m_pct") alerts
  unfolding check_errors raise_alert error_rate_5m
  error_alerts_lem now d = ground arith

  unfunded_lem :
      (now : ℤ) (d : Daemon D F)
      → is_positive d.current_equity_usd ≡ false
      → evaluate now d ≡ check_errors now (d, [])
  unfolding evaluate check_overall check_daily check_errors raise_alert escalate_to error_rate_5m
  unfunded_lem now d z = ground arith

  -- An equity that is zero or negative is no drawdown to the engine, whatever the peaks are: the update
  -- stores it, and then the mode is the worse of the mode before and of what the error rate demands, with
  -- one alert, on the error rate, where that demands a mode, and no alert where it does not.
  pub wiped_out_ignored :
      (t today : Time) (equity : D) (d : Daemon D F)
      → is_positive equity ≡ false
      → let (e, alerts) = update_equity t today equity d in
        (e.current_equity_usd ≡ equity)
        × (rank e.mode ≡ max (rank d.mode) (error_demand (unix_milli t) d))
        × (length alerts ≡ error_demand (unix_milli t) d)
        × All (λ a. a.metric ≡ "error_rate_5m_pct") alerts
  unfolding update_equity store_equity error_rate_5m
  wiped_out_ignored t today equity d z =
      let now = unix_milli t in
      let stored = store_equity today equity d in
      let (r, same, _, _) = check_errors_lem now stored [] in
      let (one, metric) = error_alerts_lem now stored in
      rw (unfunded_lem now stored z) (same.same_current, r, one, metric)
