-- ===== src/Challenge/Daemon.antt =====
-- internal/challenge/daemon.go: the daemon's state and its operations, but for the check of an intent.
-- A method returns the new daemon, and takes each reading of the clock as an argument. The mutex
-- makes each method atomic.
use trading_challenge.Prelude.{
  ℕ, Bool, true, false, ◌&&◌, not, Option, none, some, List, [], ◌∷◌, foldl, map, String, Dict,
  lookup, insert, erase, length, select, some_of, if◌then◌else◌, ℤ, pos, add64, le_ℤ, Time, Date,
  utc_date, midnight, after, before, add_duration, Decimal, greater_than, less_than, is_zero, ◌*◌,
  ◌+◌, same_date, str_eq,
}
use trading_challenge.Challenge.Config.{
  Mode, DrawdownLevel, breach, Config, hundred, parse_safety_trade_time,
}
use trading_challenge.Challenge.Rules.{
  RuleError, DrawdownResult, check_daily_drawdown, check_overall_drawdown,
  check_profit_distribution, check_stop_loss_required,
}

pub record TrackedPosition {ℓ} (D : Type ℓ) : Type ℓ where
  pub symbol : String
  pub open_time : Time
  pub deadline : Time
  pub has_stop_loss : Bool
  pub stop_loss_set : Option Time
  pub notional_usd : D
  pub margin_usd : D

-- `halted_reason` is `none` for the empty text, and else what the text was made from. `trading_days`
-- are the keys of the map, each of which has the value true.
pub record Daemon {ℓ} (D : Type ℓ) : Type ℓ where
  pub cfg : Config D
  pub current_equity : D
  pub daily_high_water : D
  pub last_reset_date : Date
  pub total_profit : D
  pub total_loss : D
  pub closed_trade_count : ℤ
  pub positions : Dict (TrackedPosition D)
  pub total_margin : D
  pub total_notional : D
  pub trading_days : List Date
  pub traded_today : Bool
  pub today_date : Date
  pub halted : Bool
  pub halted_reason : Option (RuleError D)

pub record Snapshot {ℓ} (D : Type ℓ) : Type ℓ where
  pub equity : D
  pub daily_high_water : D
  pub initial_balance : D
  pub total_profit : D
  pub total_loss : D
  pub net_pnl : D
  pub total_margin : D
  pub total_notional : D
  pub trading_days : ℕ
  pub open_positions : ℕ
  pub closed_trades : ℤ
  pub halted : Bool
  pub halt_reason : Option (RuleError D)
  pub mode : Mode

pub record PairedStopLossInfo {ℓ} (D : Type ℓ) : Type ℓ where
  pub primary_symbol : String
  pub hedge_symbol : String
  pub min_width_pct : D
  pub primary_stop_price : D
  pub hedge_stop_price : D
  pub coordinated : Bool

is_breach : DrawdownLevel → Bool
is_breach breach = true
is_breach _ = false

-- A write of true to the map of days.
unfoldable pub mark_day : Date → List Date → List Date
unfolding some_of
mark_day day days = if some_of (same_date day) days then days else day ∷ days

module _ {ℓ} {D : Type ℓ} where
  unfoldable pub reset_daily_if_needed : Time → Daemon D → Daemon D
  unfolding utc_date
  reset_daily_if_needed now d =
      let date = utc_date now in
      if same_date date d.last_reset_date then d else record d {
        daily_high_water = d.current_equity;
        last_reset_date = date;
        traded_today = false;
        today_date = date;
      }

  unfoldable pub halt : RuleError D → Daemon D → Daemon D
  halt reason d = record d { halted = true; halted_reason = some reason }

  -- A breach halts; any other alert is only returned.
  unfoldable pub breached : DrawdownResult D × Option (RuleError D) → Option (RuleError D)
  unfolding is_breach
  breached (res, none) = none
  breached (res, some e) = if is_breach res.level then some e else none

  -- A write through the pointer that the map holds.
  unfoldable pub set_stop_loss : Time → String → Dict (TrackedPosition D) → Dict (TrackedPosition D)
  set_stop_loss now symbol positions = elim (lookup symbol positions) [
    | none ↦ positions
    | some p ↦ insert symbol (record p { has_stop_loss = true; stop_loss_set = some now }) positions
  ]

  unfoldable pub confirm_stop_loss : Time → String → Daemon D → Daemon D
  unfolding set_stop_loss
  confirm_stop_loss now symbol d = record d { positions = set_stop_loss now symbol d.positions }

  unfoldable pub confirm_paired_stop_loss : Time → Time → String → String → Daemon D → Daemon D
  unfolding set_stop_loss
  confirm_paired_stop_loss now later primary hedge d =
      let first = set_stop_loss now primary d.positions in
      record d {
        positions = if str_eq hedge primary then first else set_stop_loss later hedge first;
      }

  unfoldable pub reset : Daemon D → Daemon D
  reset d = record d { halted = false; halted_reason = none }

  -- No stop-loss, and the deadline has passed.
  abbrev pub is_overdue : Time → TrackedPosition D → Bool
  is_overdue now p = not p.has_stop_loss && after now p.deadline

  unfoldable pub positions_with_expired_stop_loss : Time → Daemon D → List String
  unfolding select
  positions_with_expired_stop_loss now d =
      map (λ e. e.0) (select (λ e. is_overdue now e.1) d.positions)

  unfoldable pub check_safety_trade : Time → Daemon D → Bool
  unfolding midnight
  check_safety_trade now d =
      if d.traded_today then false else elim (parse_safety_trade_time d.cfg) [
        | none ↦ false
        | some (h, m) ↦
            not (before now (add_duration (midnight now) (pos ((h * 60 + m) * 60_000_000_000))))
      ]

  unfoldable pub trading_day_count : Daemon D → ℕ
  trading_day_count d = length d.trading_days

  unfoldable pub min_trading_days_met : Daemon D → Bool
  min_trading_days_met d = le_ℤ d.cfg.min_trading_days (pos (length d.trading_days))

module _ {ℓ} {D : Type ℓ} ⦃dec : Decimal D⦄ where
  unfoldable pub new_daemon : Time → Config D → Daemon D
  unfolding utc_date
  new_daemon now cfg = record {
    cfg = cfg;
    current_equity = cfg.initial_balance;
    daily_high_water = cfg.initial_balance;
    last_reset_date = utc_date now;
    total_profit = dec.nought;
    total_loss = dec.nought;
    closed_trade_count = pos 0;
    positions = [];
    total_margin = dec.nought;
    total_notional = dec.nought;
    trading_days = [];
    traded_today = false;
    today_date = utc_date now;
    halted = false;
    halted_reason = none;
  }

  -- The new equity is stored and the high-water mark raised to it.
  unfoldable pub raise_high_water : D → Daemon D → Daemon D
  raise_high_water equity d = record d {
    current_equity = equity;
    daily_high_water =
        if greater_than equity d.daily_high_water then equity else d.daily_high_water;
  }

  -- The error returned is the breach, or else the first of the warnings.
  unfoldable pub update_equity : Time → D → Daemon D → Daemon D × Option (RuleError D)
  unfolding reset_daily_if_needed raise_high_water halt breached
  update_equity now equity d =
      let d' = raise_high_water equity (reset_daily_if_needed now d) in
      let daily = check_daily_drawdown equity d'.daily_high_water d'.cfg in
      let overall = check_overall_drawdown equity d'.cfg.initial_balance d'.cfg in
      elim (breached daily) [
        | some e ↦ (halt e d', some e)
        | none ↦ elim (breached overall) [
          | some e ↦ (halt e d', some e)
          | none ↦ (d', elim daily.1 [ some e ↦ some e | none ↦ overall.1 ])
        ]
      ]

  -- The second part is the warning that is logged; the method returns nil.
  unfoldable pub record_trade : Time → D → Daemon D → Daemon D × Option (RuleError D)
  unfolding reset_daily_if_needed mark_day
  record_trade now pnl d =
      let d₀ = reset_daily_if_needed now d in
      let d' : Daemon D = record d₀ {
        closed_trade_count = add64 d₀.closed_trade_count (pos 1);
        traded_today = true;
        trading_days = mark_day d₀.today_date d₀.trading_days;
      } in
      if greater_than pnl dec.nought
      then (
        record d' { total_profit = dec.add d'.total_profit pnl },
        check_profit_distribution pnl d'.total_profit d'.cfg,
      )
      else if less_than pnl dec.nought
      then (record d' { total_loss = dec.add d'.total_loss (dec.abs pnl) }, none)
      else (d', none)

  -- One round of the loop of `recalcExposure`.
  abbrev pub add_exposure : D × D → String × TrackedPosition D → D × D
  add_exposure (margin, notional) (symbol, p) =
      (dec.add margin p.margin_usd, dec.add notional p.notional_usd)

  unfoldable pub exposure : Dict (TrackedPosition D) → D × D
  exposure positions = foldl add_exposure (dec.nought, dec.nought) positions

  unfoldable pub recalc_exposure : Daemon D → Daemon D
  recalc_exposure d =
      let (margin, notional) = exposure d.positions in
      record d { total_margin = margin; total_notional = notional }

  unfoldable pub track_position : Time → String → D → D → Daemon D → Daemon D
  unfolding recalc_exposure
  track_position now symbol notional margin d =
      let info = check_stop_loss_required now d.cfg in
      let p : TrackedPosition D = record {
        symbol = symbol;
        open_time = now;
        deadline = info.deadline;
        has_stop_loss = false;
        stop_loss_set = none;
        notional_usd = notional;
        margin_usd = margin;
      } in
      recalc_exposure (record d { positions = insert symbol p d.positions })

  unfoldable pub close_position : String → Daemon D → Daemon D
  unfolding recalc_exposure
  close_position symbol d = recalc_exposure (record d { positions = erase symbol d.positions })

  unfoldable pub net_pnl : Daemon D → D
  net_pnl d = dec.sub d.total_profit d.total_loss

  unfoldable pub get_snapshot : Daemon D → Snapshot D
  get_snapshot d = record {
    equity = d.current_equity;
    daily_high_water = d.daily_high_water;
    initial_balance = d.cfg.initial_balance;
    total_profit = d.total_profit;
    total_loss = d.total_loss;
    net_pnl = dec.sub d.total_profit d.total_loss;
    total_margin = d.total_margin;
    total_notional = d.total_notional;
    trading_days = length d.trading_days;
    open_positions = length d.positions;
    closed_trades = d.closed_trade_count;
    halted = d.halted;
    halt_reason = d.halted_reason;
    mode = d.cfg.mode;
  }

  -- The primary leg is short, with its stop above the entry; the hedge is long, with its stop below.
  unfoldable pub compute_paired_stop_loss :
      String → String → D → D → Daemon D → PairedStopLossInfo D
  unfolding hundred
  compute_paired_stop_loss primary hedge primary_entry hedge_entry d =
      let width = dec.div d.cfg.stop_loss_default_pct hundred in
      record {
        primary_symbol = primary;
        hedge_symbol = hedge;
        min_width_pct = d.cfg.stop_loss_default_pct;
        primary_stop_price = dec.mul primary_entry (dec.add (dec.of_int (pos 1)) width);
        hedge_stop_price = dec.mul hedge_entry (dec.sub (dec.of_int (pos 1)) width);
        coordinated = true;
      }

  -- The error is the pair of the width and the least width.
  unfoldable pub validate_stop_loss_width : D → D → Daemon D → Option (D × D)
  unfolding hundred
  validate_stop_loss_width entry stop d =
      let width = dec.mul (dec.div (dec.abs (dec.sub entry stop)) entry) hundred in
      if is_zero entry
      then none
      else if less_than width d.cfg.stop_loss_default_pct
      then some (width, d.cfg.stop_loss_default_pct)
      else none
