-- ===== src/Challenge/Days.antt =====
-- The trading days that the daemon counts, against the history of the calls; and the safety trade.
use trading_challenge.Prelude.{
  ◌≡◌, refl, ◌↔◌, true, false, ◌||◌, some, List, [], ◌∷◌, arith, Time, Date, utc_date, same_date,
  same_date_iff, some_of, Decimal, Convert, before, midnight, add_duration, pos, ◌*◌, ◌+◌, ℕ,
}
use trading_challenge.Challenge.Config.{Config, parse_safety_trade_time}
use trading_challenge.Challenge.Daemon.{
  Daemon, new_daemon, reset_daily_if_needed, mark_day, update_equity, record_trade, track_position,
  confirm_stop_loss, confirm_paired_stop_loss, close_position, reset, check_safety_trade,
}
use trading_challenge.Challenge.Intent.{validate_intent}
use trading_challenge.Challenge.Steps.{
  Call, update, record_closed, track, confirm, confirm_pair, close, check, clear, step, run,
}

-- No date stands twice.
abbrev pub IsDistinct : List Date → Type 0
IsDistinct [] = Unit
IsDistinct (x ∷ xs) = (some_of (same_date x) xs ≡ false) × IsDistinct xs

-- The dates of the trades that were recorded, with repetitions.
pub trade_dates {ℓ κ} : {D : Type ℓ} {F : Type κ} → List (Call D F) → List Date
trade_dates [] = []
trade_dates (record_closed now _ ∷ cs) = utc_date now ∷ trade_dates cs
trade_dates (_ ∷ cs) = trade_dates cs

-- What every call keeps: the two copies of today's date agree, and the days are distinct.
pub record HasDays {ℓ} {D : Type ℓ} (d : Daemon D) : Type 0 where
  pub agree : d.today_date ≡ d.last_reset_date
  pub distinct : IsDistinct d.trading_days

module _ {ℓ} {D : Type ℓ} where
  today_reset :
      (now : Time) (d : Daemon D)
      → d.today_date ≡ d.last_reset_date
      → ((reset_daily_if_needed now d).today_date ≡ utc_date now)
        × ((reset_daily_if_needed now d).last_reset_date ≡ utc_date now)
        × ((reset_daily_if_needed now d).trading_days ≡ d.trading_days)
  unfolding reset_daily_if_needed
  today_reset now d e = ground (arith, same_date_iff (utc_date now) d.last_reset_date)

mark_day-mem :
    (x day : Date) (days : List Date)
    → some_of (same_date x) (mark_day day days) ≡ (same_date x day || some_of (same_date x) days)
unfolding mark_day some_of
mark_day-mem x day days = ground (arith, same_date_iff x day)

mark_day-IsDistinct :
    (day : Date) (days : List Date) → IsDistinct days → IsDistinct (mark_day day days)
unfolding mark_day
mark_day-IsDistinct day days h = ground arith

-- The days after one call.
days_after {ℓ κ} : {D : Type ℓ} {F : Type κ} → Call D F → List Date → List Date
days_after (record_closed now _) days = mark_day (utc_date now) days
days_after _ days = days

module _ {ℓ κ} {D : Type ℓ} {F : Type κ} ⦃dec : Decimal D⦄ ⦃conv : Convert D F⦄ where
  step_days :
      (c : Call D F) (d : Daemon D)
      → HasDays d
      → ((step c d).today_date ≡ (step c d).last_reset_date)
        × ((step c d).trading_days ≡ days_after c d.trading_days)
  unfolding step days_after
  step_days (update now equity) d h = unfold update_equity in ground (arith, today_reset now d)
  step_days (record_closed now pnl) d h =
      unfold record_trade in ground (arith, today_reset now d h.agree)
  step_days (track now symbol notional margin) d h = unfold track_position in ground arith
  step_days (confirm now symbol) d h = unfold confirm_stop_loss in ground arith
  step_days (confirm_pair now later primary hedge) d h =
      unfold confirm_paired_stop_loss in ground arith
  step_days (close symbol) d h = unfold close_position in ground arith
  step_days (check now later intent) d h =
      unfold validate_intent in ground (arith, today_reset now d h.agree)
  step_days clear d h = unfold reset in ground arith

  step-HasDays : (c : Call D F) (d : Daemon D) → HasDays d → HasDays (step c d)
  unfolding days_after
  step-HasDays c d h = record {
    agree = (step_days c d h).0;
    distinct = rw (step_days c d h).1 (go c);
  }
    where
      go : (c : Call D F) → IsDistinct (days_after c d.trading_days)
      go (record_closed now pnl) = mark_day-IsDistinct (utc_date now) d.trading_days h.distinct
      go (update now equity) = h.distinct
      go (track now symbol notional margin) = h.distinct
      go (confirm now symbol) = h.distinct
      go (confirm_pair now later primary hedge) = h.distinct
      go (close symbol) = h.distinct
      go (check now later intent) = h.distinct
      go clear = h.distinct

  run_days :
      (cs : List (Call D F)) (d : Daemon D) (day : Date)
      → HasDays d
      → HasDays (run cs d)
        × ((some_of (same_date day) (run cs d).trading_days ≡ true) ↔ (
            (some_of (same_date day) (trade_dates cs) || some_of (same_date day) d.trading_days)
            ≡ true))
  unfolding run trade_dates some_of
  run_days [] d day h = (h, (λ e. e, λ e. e))
  run_days (c ∷ cs) d day h =
      let (inv, mem) = run_days cs (step c d) day (step-HasDays c d h) in
      (inv, go c mem (step_days c d h).1)
    where
      go :
          (c : Call D F)
          → ((some_of (same_date day) (run cs (step c d)).trading_days ≡ true) ↔ (
              (some_of (same_date day) (trade_dates cs)
                || some_of (same_date day) (step c d).trading_days)
              ≡ true))
          → ((step c d).trading_days ≡ days_after c d.trading_days)
          → ((some_of (same_date day) (run cs (step c d)).trading_days ≡ true) ↔ (
              (some_of (same_date day) (trade_dates (c ∷ cs))
                || some_of (same_date day) d.trading_days)
              ≡ true))
      go (record_closed now pnl) mem e =
          unfold days_after in
          ground (arith, mem, e, mark_day-mem day (utc_date now) d.trading_days)
      go (update now equity) mem e = unfold days_after in ground (arith, mem, e)
      go (track now symbol notional margin) mem e = unfold days_after in ground (arith, mem, e)
      go (confirm now symbol) mem e = unfold days_after in ground (arith, mem, e)
      go (confirm_pair now later primary hedge) mem e = unfold days_after in ground (arith, mem, e)
      go (close symbol) mem e = unfold days_after in ground (arith, mem, e)
      go (check now later intent) mem e = unfold days_after in ground (arith, mem, e)
      go clear mem e = unfold days_after in ground (arith, mem, e)

  -- After any calls of a new daemon, the trading days are distinct, and a day is among them exactly
  -- when some trade was recorded at a time of that UTC day.
  pub trading_days_history :
      (start : Time) (cfg : Config D) (cs : List (Call D F)) (day : Date)
      → let d = run cs (new_daemon start cfg) in
        IsDistinct d.trading_days
        × ((some_of (same_date day) d.trading_days ≡ true)
            ↔ (some_of (same_date day) (trade_dates cs) ≡ true))
  unfolding new_daemon some_of
  trading_days_history start cfg cs day =
      let (inv, mem) =
        run_days cs (new_daemon start cfg) day (record { agree = refl; distinct = tt }) in
      (inv.distinct, ground (arith, mem))

module _ {ℓ} {D : Type ℓ} ⦃dec : Decimal D⦄ where
  -- After a trade was recorded, the safety trade is not asked for at a time of another day at which
  -- the configured time of that day has come; once the new day has been started, the same question
  -- is answered with yes.
  safety_trade_stale :
      (traded now : Time) (pnl : D) (d : Daemon D) (h m : ℕ)
      → same_date (utc_date now) (record_trade traded pnl d).0.last_reset_date ≡ false
      → parse_safety_trade_time d.cfg ≡ some (h, m)
      → before now (add_duration (midnight now) (pos ((h * 60 + m) * 60_000_000_000))) ≡ false
      → let d' = (record_trade traded pnl d).0 in
        (check_safety_trade now d' ≡ false)
        × (check_safety_trade now (reset_daily_if_needed now d') ≡ true)
  unfolding check_safety_trade reset_daily_if_needed record_trade
  safety_trade_stale traded now pnl d h m other time late = ground arith
