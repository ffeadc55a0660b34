-- ===== src/Challenge/Intent.antt =====
-- internal/challenge/daemon.go, `ValidateIntent`: the check that every trade intent passes.
use trading_challenge.Prelude.{
  not, Option, none, some, List, [], ◌∷◌, foldl, String, Dict, if◌then◌else◌, pos, Time, Decimal,
  greater_than, Convert,
}
use trading_challenge.Arb.{TradeLeg, TradeIntent}
use trading_challenge.Challenge.Config.{funded, hundred}
use trading_challenge.Challenge.Rules.{
  RuleError, check_daily_drawdown, check_overall_drawdown, check_per_trade_risk,
  check_profit_distribution, check_max_exposure, check_max_notional,
}
use trading_challenge.Challenge.Daemon.{TrackedPosition, Daemon, reset_daily_if_needed, is_overdue}

-- The errors, with what their messages print.
pub data IntentError {ℓ} (D : Type ℓ) : Type ℓ where
  challenge_halted : Option (RuleError D) → IntentError D
  rejected : (intent_id : String) → RuleError D → IntentError D
  no_stop_loss : (intent_id symbol : String) → Time → IntentError D

module _ {ℓ} {D : Type ℓ} where
  -- The first position without a stop-loss past its deadline, in the order of the map.
  unfoldable pub first_overdue : Time → Dict (TrackedPosition D) → Option (String × Time)
  first_overdue now [] = none
  first_overdue now ((symbol, p) ∷ rest) =
      if is_overdue now p then some (symbol, p.deadline) else first_overdue now rest

module _ {ℓ} {D : Type ℓ} ⦃dec : Decimal D⦄ where
  -- Rule 7.
  unfoldable pub check_funded : D → Daemon D → Option (RuleError D)
  check_funded notional d = elim d.cfg.mode [
    | funded ↦
        elim (check_max_exposure (dec.add d.total_margin notional) d.cfg.initial_balance d.cfg) [
          | some e ↦ some e
          | none ↦ check_max_notional (dec.add d.total_notional notional) d.current_equity d.cfg
        ]
    | _ ↦ none
  ]

module _ {ℓ κ} {D : Type ℓ} {F : Type κ} ⦃dec : Decimal D⦄ ⦃conv : Convert D F⦄ where
  unfoldable pub intent_notional : List (TradeLeg F) → D
  intent_notional = foldl (λ sum leg. dec.add sum (conv.from_float leg.notional_usd)) dec.nought

  -- Rules 5 to 7.
  unfoldable pub check_trade : TradeIntent F → Daemon D → Option (RuleError D)
  check_trade intent d =
      let notional = intent_notional intent.legs in
      let distance = dec.div (dec.mul notional d.cfg.stop_loss_default_pct) hundred in
      let expected = conv.from_float intent.expected.profit_usd_net in
      elim (check_per_trade_risk distance (dec.of_int (pos 1)) d.cfg.initial_balance d.cfg) [
        | some e ↦ some e
        | none ↦
            elim (if greater_than expected dec.nought
              then check_profit_distribution expected d.total_profit d.cfg
              else none) [ some e ↦ some e | none ↦ check_funded notional d ]
      ]

  -- Rules 3 and 4, then the rules of the trade.
  unfoldable pub check_rules : TradeIntent F → Daemon D → Option (RuleError D)
  check_rules intent d = elim (check_daily_drawdown d.current_equity d.daily_high_water d.cfg).1 [
    | some e ↦ some e
    | none ↦ elim (check_overall_drawdown d.current_equity d.cfg.initial_balance d.cfg).1 [
      | some e ↦ some e
      | none ↦ check_trade intent d
    ]
  ]

  -- `later` is the second reading of the clock, for the deadlines.
  unfoldable pub validate_intent :
      Time → Time → TradeIntent F → Daemon D → Daemon D × Option (IntentError D)
  validate_intent now later intent d₀ =
      let d = reset_daily_if_needed now d₀ in
      let id = intent.intent_id in
      if d.halted
      then (d, some (challenge_halted d.halted_reason))
      else if not d.cfg.enabled
      then (d, none)
      else elim (check_rules intent d) [
        | some e ↦ (d, some (rejected id e))
        | none ↦ elim (first_overdue later d.positions) [
          | some (symbol, deadline) ↦ (d, some (no_stop_loss id symbol deadline))
          | none ↦ (d, none)
        ]
      ]
