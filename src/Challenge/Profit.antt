-- ===== src/Challenge/Profit.antt =====
-- What the share rule does before any profit is realised.
use trading_challenge.Prelude.{
  ◌≡◌, ◌≢◌, ap, ◌∙◌, true, none, arith, Time, pos, Decimal, Convert, IsField, less_than,
  greater_than,
}
use trading_challenge.Arb.{TradeIntent}
use trading_challenge.Challenge.Config.{funded, Config, hundred}
use trading_challenge.Challenge.Rules.{check_profit_distribution}
use trading_challenge.Challenge.Daemon.{Daemon, reset_daily_if_needed}
use trading_challenge.Challenge.Intent.{check_trade, check_rules, validate_intent}

module _ {ℓ} {D : Type ℓ} ⦃dec : Decimal D⦄ (laws : IsField D) where
  open laws use {ordered, add_nought, div_self, mul_one}
  open ordered use {cmp_swap}

  share_whole :
      (x : D)
      → greater_than x dec.nought ≡ true
      → dec.mul (dec.div x (dec.add dec.nought x)) (dec.of_int (pos 100)) ≡ dec.of_int (pos 100)
  share_whole x h =
      ap (λ y. dec.mul (dec.div x y) (dec.of_int (pos 100))) (add_nought x)
      ∙ ap (λ y. dec.mul y (dec.of_int (pos 100))) (div_self x h)
      ∙ mul_one (dec.of_int (pos 100))

  first_share_refused :
      (x total : D) (cfg : Config D)
      → total ≡ dec.nought
      → cfg.mode ≢ funded
      → less_than cfg.profit_distribution_max_pct (dec.of_int (pos 100)) ≡ true
      → greater_than x dec.nought ≡ true
      → check_profit_distribution x total cfg ≢ none
  unfolding check_profit_distribution hundred
  first_share_refused x total cfg z m l h = ground (
    arith,
    share_whole x h,
    add_nought x,
    cmp_swap cfg.profit_distribution_max_pct (dec.of_int (pos 100)),
  )

module _ {ℓ κ} {D : Type ℓ} {F : Type κ} ⦃dec : Decimal D⦄ ⦃conv : Convert D F⦄
    (laws : IsField D) where
  check_trade_refuses :
      (intent : TradeIntent F) (d : Daemon D)
      → d.total_profit ≡ dec.nought
      → d.cfg.mode ≢ funded
      → less_than d.cfg.profit_distribution_max_pct (dec.of_int (pos 100)) ≡ true
      → greater_than (conv.from_float intent.expected.profit_usd_net) dec.nought ≡ true
      → check_trade intent d ≢ none
  unfolding check_trade
  check_trade_refuses intent d z m l h = ground (
    arith,
    first_share_refused laws (conv.from_float intent.expected.profit_usd_net) d.total_profit d.cfg z
        m l h,
  )

  -- Under the laws of decimals, in a challenge phase with the rules switched on and a share limit
  -- below 100 percent: as long as no profit has been realised, every intent that expects a profit
  -- is refused.
  pub first_profit_refused :
      (now later : Time) (intent : TradeIntent F) (d : Daemon D)
      → d.total_profit ≡ dec.nought
      → d.cfg.enabled ≡ true
      → d.cfg.mode ≢ funded
      → less_than d.cfg.profit_distribution_max_pct (dec.of_int (pos 100)) ≡ true
      → greater_than (conv.from_float intent.expected.profit_usd_net) dec.nought ≡ true
      → (validate_intent now later intent d).1 ≢ none
  unfolding validate_intent check_rules reset_daily_if_needed
  first_profit_refused now later intent d z on m l h = ground (
    arith,
    check_trade_refuses intent d z m l h,
    check_trade_refuses intent (reset_daily_if_needed now d),
  )
