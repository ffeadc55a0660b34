-- ===== src/Challenge/Rules.antt =====
-- internal/challenge/rules.go: the rules, each a function of amounts and the configuration.
use trading_challenge.Prelude.{
  Option, none, some, if◌then◌else◌, Time, add_duration, Decimal, less_than_or_equal, greater_than,
  greater_than_or_equal, is_zero,
}
use trading_challenge.Challenge.Config.{
  funded, DrawdownLevel, normal, soft, hard, breach, Config, hundred, stop_loss_deadline,
}

-- The errors, with the amounts that their messages print.
pub data RuleError {ℓ} (D : Type ℓ) : Type ℓ where
  daily_drawdown : DrawdownLevel → (pct limit equity high_water : D) → RuleError D
  overall_drawdown : DrawdownLevel → (pct limit equity initial : D) → RuleError D
  stop_distance_not_positive : D → RuleError D
  position_size_not_positive : D → RuleError D
  per_trade_risk : (risk max_risk stop_distance size : D) → RuleError D
  profit_distribution : (pnl pct total : D) → RuleError D
  funded_exposure : (margin max_margin : D) → RuleError D
  funded_notional : (notional max_notional : D) → RuleError D

-- `DailyDrawdownResult` and `OverallDrawdownResult`: `reference` is the high-water mark or the initial
-- balance.
pub record DrawdownResult {ℓ} (D : Type ℓ) : Type ℓ where
  pub level : DrawdownLevel
  pub drawdown_pct : D
  pub drawdown_abs : D
  pub reference : D
  pub current_equity : D

pub record StopLossDeadlineInfo {ℓ} (D : Type ℓ) : Type ℓ where
  pub deadline : Time
  pub default_stop_pct : D

module _ {ℓ} {D : Type ℓ} ⦃dec : Decimal D⦄ where
  unfoldable pub check_daily_drawdown : D → D → Config D → DrawdownResult D × Option (RuleError D)
  unfolding hundred
  check_daily_drawdown equity high cfg =
      let nothing : DrawdownResult D = record {
        level = normal;
        drawdown_pct = dec.nought;
        drawdown_abs = dec.nought;
        reference = high;
        current_equity = equity;
      } in
      let fall = dec.sub high equity in
      let pct = dec.mul (dec.div fall high) hundred in
      let res : DrawdownResult D = record nothing { drawdown_pct = pct; drawdown_abs = fall } in
      if is_zero high
      then (nothing, none)
      else if less_than_or_equal fall dec.nought
      then (nothing, none)
      else if greater_than_or_equal pct cfg.daily_drawdown_breach_pct
      then (
        record res { level = breach },
        some (daily_drawdown breach pct cfg.daily_drawdown_breach_pct equity high),
      )
      else if greater_than_or_equal pct cfg.daily_drawdown_hard_pct
      then (
        record res { level = hard },
        some (daily_drawdown hard pct cfg.daily_drawdown_hard_pct equity high),
      )
      else if greater_than_or_equal pct cfg.daily_drawdown_soft_pct
      then (
        record res { level = soft },
        some (daily_drawdown soft pct cfg.daily_drawdown_soft_pct equity high),
      )
      else (res, none)

  unfoldable pub check_overall_drawdown : D → D → Config D → DrawdownResult D × Option (RuleError D)
  unfolding hundred
  check_overall_drawdown equity initial cfg =
      let nothing : DrawdownResult D = record {
        level = normal;
        drawdown_pct = dec.nought;
        drawdown_abs = dec.nought;
        reference = initial;
        current_equity = equity;
      } in
      let fall = dec.sub initial equity in
      let pct = dec.mul (dec.div fall initial) hundred in
      let res : DrawdownResult D = record nothing { drawdown_pct = pct; drawdown_abs = fall } in
      if less_than_or_equal fall dec.nought
      then (nothing, none)
      else if greater_than_or_equal pct cfg.overall_drawdown_breach_pct
      then (
        record res { level = breach },
        some (overall_drawdown breach pct cfg.overall_drawdown_breach_pct equity initial),
      )
      else if greater_than_or_equal pct cfg.overall_drawdown_hard_pct
      then (
        record res { level = hard },
        some (overall_drawdown hard pct cfg.overall_drawdown_hard_pct equity initial),
      )
      else if greater_than_or_equal pct cfg.overall_drawdown_soft_pct
      then (
        record res { level = soft },
        some (overall_drawdown soft pct cfg.overall_drawdown_soft_pct equity initial),
      )
      else (res, none)

  unfoldable pub check_per_trade_risk : D → D → D → Config D → Option (RuleError D)
  unfolding hundred
  check_per_trade_risk distance size initial cfg =
      let risk = dec.mul distance size in
      let max_risk = dec.div (dec.mul initial cfg.max_risk_per_trade_pct) hundred in
      if less_than_or_equal distance dec.nought
      then some (stop_distance_not_positive distance)
      else if less_than_or_equal size dec.nought
      then some (position_size_not_positive size)
      else if greater_than risk max_risk
      then some (per_trade_risk risk max_risk distance size)
      else none

  unfoldable pub check_profit_distribution : D → D → Config D → Option (RuleError D)
  unfolding hundred
  check_profit_distribution pnl total cfg =
      let new_total = dec.add total pnl in
      let pct = dec.mul (dec.div pnl new_total) hundred in
      elim cfg.mode [
        | funded ↦ none
        | _ ↦
            if less_than_or_equal pnl dec.nought
            then none
            else if less_than_or_equal new_total dec.nought
            then none
            else if greater_than pct cfg.profit_distribution_max_pct
            then some (profit_distribution pnl pct new_total)
            else none
      ]

  unfoldable pub check_max_exposure : D → D → Config D → Option (RuleError D)
  unfolding hundred
  check_max_exposure margin initial cfg =
      let max_margin = dec.div (dec.mul initial cfg.funded_max_margin_exposure_pct) hundred in
      elim cfg.mode [
        | funded ↦
            if greater_than margin max_margin
            then some (funded_exposure margin max_margin)
            else none
        | _ ↦ none
      ]

  unfoldable pub check_max_notional : D → D → Config D → Option (RuleError D)
  check_max_notional notional balance cfg =
      let max_notional = dec.mul balance cfg.funded_max_notional_multiplier in
      elim cfg.mode [
        | funded ↦
            if greater_than notional max_notional
            then some (funded_notional notional max_notional)
            else none
        | _ ↦ none
      ]

  unfoldable pub check_stop_loss_required : Time → Config D → StopLossDeadlineInfo D
  unfolding add_duration stop_loss_deadline
  check_stop_loss_required opened cfg = record {
    deadline = add_duration opened (stop_loss_deadline cfg);
    default_stop_pct = cfg.stop_loss_default_pct;
  }
