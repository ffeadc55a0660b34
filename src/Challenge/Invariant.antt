-- ===== src/Challenge/Invariant.antt =====
-- What holds of the daemon between two calls, and that every method keeps it.
use trading_challenge.Prelude.{
  ◌≡◌, ◌≢◌, refl, true, none, List, arith, String, Time, Date, same_date, same_date_iff, some_of,
  Decimal, ◌≼◌, IsField, le_refl,
}
use trading_challenge.Challenge.Config.{Config}
use trading_challenge.Challenge.Rules.{RuleError}
use trading_challenge.Challenge.Daemon.{
  Daemon, new_daemon, reset_daily_if_needed, halt, raise_high_water, update_equity, record_trade,
  exposure, track_position, close_position, reset, mark_day,
}

module _ {ℓ} {D : Type ℓ} ⦃dec : Decimal D⦄ where
  pub record Inv (d : Daemon D) : Type ℓ where
    pub under_high_water : d.current_equity ≼ d.daily_high_water
    pub profit_nonneg : dec.nought ≼ d.total_profit
    pub loss_nonneg : dec.nought ≼ d.total_loss
    pub same_day : d.today_date ≡ d.last_reset_date
    pub traded_marked :
        d.traded_today ≡ true → some_of (same_date d.today_date) d.trading_days ≡ true
    pub halt_explained : d.halted ≡ true → d.halted_reason ≢ none
    pub margin_current : d.total_margin ≡ (exposure d.positions).0
    pub notional_current : d.total_notional ≡ (exposure d.positions).1

  module _ (laws : IsField D) where
    open laws use {ordered, add_mono, add_nought, abs_nonneg}
    open ordered use {cmp_swap, le_trans}

    add_nonneg : (a b : D) → dec.nought ≼ a → dec.nought ≼ b → dec.nought ≼ dec.add a b
    add_nonneg a b h k =
        le_trans dec.nought b (dec.add a b) k (rw add_nought at (add_mono dec.nought a b h))

    pub new_daemon-Inv : (now : Time) (cfg : Config D) → Inv (new_daemon now cfg)
    unfolding new_daemon exposure
    new_daemon-Inv now cfg = record {
      under_high_water = le_refl ordered cfg.initial_balance;
      profit_nonneg = le_refl ordered dec.nought;
      loss_nonneg = le_refl ordered dec.nought;
      same_day = refl;
      traded_marked = λ e. cc;
      halt_explained = λ e. cc;
      margin_current = refl;
      notional_current = refl;
    }

    pub reset_daily-Inv : (now : Time) {d : Daemon D} → Inv d → Inv (reset_daily_if_needed now d)
    unfolding reset_daily_if_needed
    reset_daily-Inv now {d} v = ground (arith, le_refl ordered d.current_equity)

    raise-Inv : (equity : D) {d : Daemon D} → Inv d → Inv (raise_high_water equity d)
    unfolding raise_high_water
    raise-Inv equity {d} v = ground (arith, le_refl ordered equity)

    halt-Inv : (e : RuleError D) {d : Daemon D} → Inv d → Inv (halt e d)
    unfolding halt
    halt-Inv e v = ground arith

    pub update_equity-Inv :
        (now : Time) (equity : D) {d : Daemon D} → Inv d → Inv (update_equity now equity d).0
    unfolding update_equity
    update_equity-Inv now equity {d} v = ground (
      arith,
      raise-Inv equity (reset_daily-Inv now v),
      le_refl ordered d.current_equity,
      le_refl ordered equity,
    )

    mark_day-marked :
        (day : Date) (days : List Date) → some_of (same_date day) (mark_day day days) ≡ true
    unfolding mark_day some_of
    mark_day-marked day days = ground (arith, same_date_iff day day)

    pub record_trade-Inv :
        (now : Time) (pnl : D) {d : Daemon D} → Inv d → Inv (record_trade now pnl d).0
    unfolding record_trade
    record_trade-Inv now pnl {d} v =
        let d' = reset_daily_if_needed now d in
        let v' = reset_daily-Inv now v in
        ground (
          arith,
          v',
          mark_day-marked d'.today_date d'.trading_days,
          add_nonneg d'.total_profit pnl v'.profit_nonneg,
          add_nonneg d'.total_loss (dec.abs pnl) v'.loss_nonneg (abs_nonneg pnl),
          cmp_swap dec.nought pnl,
        )

    pub track_position-Inv :
        (now : Time) (symbol : String) (notional margin : D) {d : Daemon D}
        → Inv d
        → Inv (track_position now symbol notional margin d)
    unfolding track_position
    track_position-Inv now symbol notional margin v = ground arith

    pub close_position-Inv :
        (symbol : String) {d : Daemon D} → Inv d → Inv (close_position symbol d)
    unfolding close_position
    close_position-Inv symbol v = ground arith

    pub reset-Inv : {d : Daemon D} → Inv d → Inv (reset d)
    unfolding reset
    reset-Inv v = ground arith
