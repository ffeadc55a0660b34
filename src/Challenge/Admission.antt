-- ===== src/Challenge/Admission.antt =====
-- `ValidateIntent` against an independent description of the trades that the rules admit, and when an
-- update of the equity halts.
use trading_challenge.Prelude.{
  ◌≡◌, refl, ◌⊎◌, ◌↔◌, Bool, true, false, Option, none, some, [], ◌∷◌, All, arith, Time, Dict, pos,
  Decimal, Convert, IsField, greater_than, ◌≼◌, if◌then◌else◌,
}
use trading_challenge.Arb.{TradeIntent}
use trading_challenge.Challenge.Config.{Config, funded, breach, validate, hundred}
use trading_challenge.Challenge.Rules.{
  RuleError, check_daily_drawdown, check_overall_drawdown, check_per_trade_risk,
  check_profit_distribution, check_max_exposure, check_max_notional,
}
use trading_challenge.Challenge.Daemon.{
  TrackedPosition, Daemon, reset_daily_if_needed, is_overdue, breached, update_equity,
}
use trading_challenge.Challenge.Intent.{
  first_overdue, intent_notional, check_funded, check_trade, check_rules, validate_intent,
}
use trading_challenge.Challenge.Levels.{IsCalm, daily_silent_iff, overall_silent_iff}

module _ {ℓ} {D : Type ℓ} ⦃dec : Decimal D⦄ where
  abbrev is_set : Option (RuleError D) → Bool
  is_set (some _) = true
  is_set none = false

  -- A check breaches exactly when its level says so.
  daily_agrees :
      (equity high : D) (cfg : Config D)
      → (is_set (breached (check_daily_drawdown equity high cfg)) ≡ true)
        ↔ ((check_daily_drawdown equity high cfg).0.level ≡ breach)
  unfolding check_daily_drawdown breached
  daily_agrees equity high cfg = ground arith

  overall_agrees :
      (equity initial : D) (cfg : Config D)
      → (is_set (breached (check_overall_drawdown equity initial cfg)) ≡ true)
        ↔ ((check_overall_drawdown equity initial cfg).0.level ≡ breach)
  unfolding check_overall_drawdown breached
  overall_agrees equity initial cfg = ground arith

  -- An update halts exactly when the fall from the new high-water mark, or from the initial balance,
  -- is of breach level; a daemon that was halted stays so.
  pub update_equity_halts_iff :
      (now : Time) (equity : D) (d : Daemon D)
      → let d' = (update_equity now equity d).0 in
        (d'.halted ≡ true) ↔ (
          (d.halted ≡ true)
          ⊎ ((check_daily_drawdown equity d'.daily_high_water d.cfg).0.level ≡ breach)
          ⊎ ((check_overall_drawdown equity d.cfg.initial_balance d.cfg).0.level ≡ breach))
  unfolding update_equity
  update_equity_halts_iff now equity d =
      let high = (update_equity now equity d).0.daily_high_water in
      ground
        (arith, daily_agrees equity high d.cfg, overall_agrees equity d.cfg.initial_balance d.cfg)

  pub reset_keeps :
      (now : Time) (d : Daemon D)
      → ((reset_daily_if_needed now d).halted ≡ d.halted)
        × ((reset_daily_if_needed now d).cfg ≡ d.cfg)
  unfolding reset_daily_if_needed
  reset_keeps now d = ground arith

  pub first_overdue_iff :
      (later : Time) (m : Dict (TrackedPosition D))
      → (first_overdue later m ≡ none) ↔ All (λ e. is_overdue later e.1 ≡ false) m
  unfolding first_overdue
  first_overdue_iff later [] = ((λ _. tt), λ _. refl)
  first_overdue_iff later ((k, p) ∷ m) = ground (arith, first_overdue_iff later m)

module _ {ℓ κ} {D : Type ℓ} {F : Type κ} ⦃dec : Decimal D⦄ ⦃conv : Convert D F⦄ where
  -- The loss that the default stop allows on the whole intent.
  abbrev stop_distance : TradeIntent F → Daemon D → D
  stop_distance intent d =
      dec.div (dec.mul (intent_notional intent.legs) d.cfg.stop_loss_default_pct)
        (dec.of_int (pos 100))

  abbrev expected_pnl : TradeIntent F → D
  expected_pnl intent = conv.from_float intent.expected.profit_usd_net

  -- The trade risks something, and no more than the limit.
  abbrev IsRiskLimited : TradeIntent F → Daemon D → Type 0
  IsRiskLimited intent d =
      (greater_than (stop_distance intent d) dec.nought ≡ true)
      × (dec.mul (stop_distance intent d) (dec.of_int (pos 1))
          ≼ dec.div (dec.mul d.cfg.initial_balance d.cfg.max_risk_per_trade_pct)
              (dec.of_int (pos 100)))

  -- Outside funded mode, the share of an expected profit in the total is limited.
  abbrev IsShared : TradeIntent F → Daemon D → Type 0
  IsShared intent d =
      let total = dec.add d.total_profit (expected_pnl intent) in
      (d.cfg.mode ≡ funded)
      ⊎ (expected_pnl intent ≼ dec.nought)
      ⊎ (total ≼ dec.nought)
      ⊎ (dec.mul (dec.div (expected_pnl intent) total) (dec.of_int (pos 100))
          ≼ d.cfg.profit_distribution_max_pct)

  -- In funded mode, the exposure with this trade stays within both limits.
  abbrev IsFundedLimited : TradeIntent F → Daemon D → Type 0
  IsFundedLimited intent d =
      d.cfg.mode ≡ funded
      → (dec.add d.total_margin (intent_notional intent.legs)
          ≼ dec.div (dec.mul d.cfg.initial_balance d.cfg.funded_max_margin_exposure_pct)
              (dec.of_int (pos 100)))
        × (dec.add d.total_notional (intent_notional intent.legs)
            ≼ dec.mul d.current_equity d.cfg.funded_max_notional_multiplier)

  pub record IsAdmissible (later : Time) (intent : TradeIntent F) (d : Daemon D) : Type 0 where
    pub daily_calm : IsCalm d.current_equity d.daily_high_water d.cfg.daily_drawdown_soft_pct
    pub overall_calm : IsCalm d.current_equity d.cfg.initial_balance d.cfg.overall_drawdown_soft_pct
    pub risk_limited : IsRiskLimited intent d
    pub shared : IsShared intent d
    pub funded_limited : IsFundedLimited intent d
    pub none_overdue : All (λ e. is_overdue later e.1 ≡ false) d.positions

  module _ (laws : IsField D) where
    open laws use {one_positive}

    per_trade_iff :
        (intent : TradeIntent F) (d : Daemon D)
        → (check_per_trade_risk
              (stop_distance intent d)
              (dec.of_int (pos 1))
              d.cfg.initial_balance
              d.cfg
            ≡ none)
          ↔ IsRiskLimited intent d
    unfolding check_per_trade_risk
    per_trade_iff intent d = ground (arith, one_positive)

    profit_iff :
        (intent : TradeIntent F) (d : Daemon D)
        → ((if greater_than (expected_pnl intent) dec.nought
              then check_profit_distribution (expected_pnl intent) d.total_profit d.cfg
              else none)
            ≡ none)
          ↔ IsShared intent d
    unfolding check_profit_distribution
    profit_iff intent d = ground arith

    funded_iff :
        (intent : TradeIntent F) (d : Daemon D)
        → (check_funded (intent_notional intent.legs) d ≡ none) ↔ IsFundedLimited intent d
    unfolding check_funded check_max_exposure check_max_notional
    funded_iff intent d = ground arith

    check_trade_iff :
        (intent : TradeIntent F) (d : Daemon D)
        → (check_trade intent d ≡ none)
          ↔ (IsRiskLimited intent d × IsShared intent d × IsFundedLimited intent d)
    unfolding check_trade hundred
    check_trade_iff intent d =
        ground (arith, per_trade_iff intent d, profit_iff intent d, funded_iff intent d)

    check_rules_iff :
        (intent : TradeIntent F) (d : Daemon D)
        → validate d.cfg ≡ none
        → greater_than d.daily_high_water dec.nought ≡ true
        → (check_rules intent d ≡ none) ↔ (
            IsCalm d.current_equity d.daily_high_water d.cfg.daily_drawdown_soft_pct
            × IsCalm d.current_equity d.cfg.initial_balance d.cfg.overall_drawdown_soft_pct
            × IsRiskLimited intent d
            × IsShared intent d
            × IsFundedLimited intent d)
    unfolding check_rules
    check_rules_iff intent d v p = ground (
      arith,
      daily_silent_iff laws d.current_equity d.daily_high_water d.cfg v p,
      overall_silent_iff laws d.current_equity d.cfg v,
      check_trade_iff intent d,
    )

    -- Under the laws of decimals, with a valid configuration and a positive high-water mark (that
    -- of today): an intent passes exactly when the daemon is not halted and either the rules are
    -- switched off or the intent is admissible. The check changes nothing but what the start of a
    -- new day changes.
    pub validate_intent_iff :
        (now later : Time) (intent : TradeIntent F) (d : Daemon D)
        → validate d.cfg ≡ none
        → greater_than (reset_daily_if_needed now d).daily_high_water dec.nought ≡ true
        → let d' = reset_daily_if_needed now d in
          (((validate_intent now later intent d).1 ≡ none)
            ↔ ((d.halted ≡ false) × ((d.cfg.enabled ≡ false) ⊎ IsAdmissible later intent d')))
          × ((validate_intent now later intent d).0 ≡ d')
    unfolding validate_intent
    validate_intent_iff now later intent d v p =
        let d' = reset_daily_if_needed now d in
        let (same_halt, same_cfg) = reset_keeps now d in
        ground (
          arith,
          same_halt,
          same_cfg,
          check_rules_iff intent d' (rw same_cfg v) p,
          first_overdue_iff later d'.positions,
        )
