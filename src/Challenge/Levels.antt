-- ===== src/Challenge/Levels.antt =====
-- The drawdown checks: an independent description of "no alert", and monotonicity in the equity.
use trading_challenge.Prelude.{
  ℕ, pos, ◌≤◌, ◌≡◌, ◌↔◌, ◌⊎◌, true, none, arith, Decimal, ◌≼◌, IsField, less_than,
  less_than_or_equal, greater_than, greater_than_or_equal,
}
use trading_challenge.Challenge.Config.{DrawdownLevel, normal, soft, hard, breach, Config, validate}
use trading_challenge.Challenge.Rules.{check_daily_drawdown, check_overall_drawdown}

-- The severity of a level, as its number in the source.
abbrev pub severity : DrawdownLevel → ℕ
severity normal = 0
severity soft = 1
severity hard = 2
severity breach = 3

module _ {ℓ} {D : Type ℓ} ⦃dec : Decimal D⦄ where
  -- The fall from `high` to `equity` as a percentage of `high`.
  abbrev pub fall_pct : D → D → D
  fall_pct equity high = dec.mul (dec.div (dec.sub high equity) high) (dec.of_int (pos 100))

  -- Nothing has fallen, or by less than the soft limit.
  abbrev pub IsCalm : D → D → D → Type 0
  IsCalm equity high limit =
      (less_than_or_equal (dec.sub high equity) dec.nought ≡ true)
      ⊎ (less_than (fall_pct equity high) limit ≡ true)

  module _ (laws : IsField D) where
    open laws use {ordered, sub_anti, mul_mono, div_mono, hundred_nonneg}
    open ordered use {cmp_swap, le_trans}

    -- What is at least a threshold stays so when it grows.
    ge_mono :
        (t x y : D) → x ≼ y → greater_than_or_equal x t ≡ true → greater_than_or_equal y t ≡ true
    ge_mono t x y h k = ground (arith, le_trans t x y, cmp_swap t x, cmp_swap t y)

    fall_pct_mono :
        (e₁ e₂ high : D)
        → greater_than high dec.nought ≡ true
        → e₁ ≼ e₂
        → fall_pct e₂ high ≼ fall_pct e₁ high
    fall_pct_mono e₁ e₂ high p h =
        mul_mono _ _ _ (div_mono _ _ _ (sub_anti e₁ e₂ high h) p) hundred_nonneg

    daily_mono :
        (e₁ e₂ high : D) (cfg : Config D)
        → greater_than high dec.nought ≡ true
        → e₁ ≼ e₂
        → severity (check_daily_drawdown e₂ high cfg).0.level
          ≤ severity (check_daily_drawdown e₁ high cfg).0.level
    unfolding check_daily_drawdown
    daily_mono e₁ e₂ high cfg p h = ground (
      arith,
      le_trans (dec.sub high e₂) (dec.sub high e₁) dec.nought (sub_anti e₁ e₂ high h),
      ge_mono cfg.daily_drawdown_breach_pct _ _ (fall_pct_mono e₁ e₂ high p h),
      ge_mono cfg.daily_drawdown_hard_pct _ _ (fall_pct_mono e₁ e₂ high p h),
      ge_mono cfg.daily_drawdown_soft_pct _ _ (fall_pct_mono e₁ e₂ high p h),
    )

    overall_mono :
        (e₁ e₂ initial : D) (cfg : Config D)
        → greater_than initial dec.nought ≡ true
        → e₁ ≼ e₂
        → severity (check_overall_drawdown e₂ initial cfg).0.level
          ≤ severity (check_overall_drawdown e₁ initial cfg).0.level
    unfolding check_overall_drawdown
    overall_mono e₁ e₂ initial cfg p h = ground (
      arith,
      le_trans (dec.sub initial e₂) (dec.sub initial e₁) dec.nought (sub_anti e₁ e₂ initial h),
      ge_mono cfg.overall_drawdown_breach_pct _ _ (fall_pct_mono e₁ e₂ initial p h),
      ge_mono cfg.overall_drawdown_hard_pct _ _ (fall_pct_mono e₁ e₂ initial p h),
      ge_mono cfg.overall_drawdown_soft_pct _ _ (fall_pct_mono e₁ e₂ initial p h),
    )

    -- Under the laws of decimals: from the same positive reference, be it the daily high-water mark
    -- or the initial balance, a lower equity is never given a milder level, whatever the thresholds
    -- are.
    drawdown_mono :
        (e₁ e₂ reference : D) (cfg : Config D)
        → greater_than reference dec.nought ≡ true
        → e₁ ≼ e₂
        → (severity (check_daily_drawdown e₂ reference cfg).0.level
            ≤ severity (check_daily_drawdown e₁ reference cfg).0.level)
          × (severity (check_overall_drawdown e₂ reference cfg).0.level
              ≤ severity (check_overall_drawdown e₁ reference cfg).0.level)
    drawdown_mono e₁ e₂ reference cfg p h =
        (daily_mono e₁ e₂ reference cfg p h, overall_mono e₁ e₂ reference cfg p h)

    -- With a configuration that `validate` accepts, the limits are in order.
    pub validate_ordered :
        (cfg : Config D)
        → validate cfg ≡ none
        → (less_than cfg.daily_drawdown_soft_pct cfg.daily_drawdown_hard_pct ≡ true)
          × (less_than cfg.daily_drawdown_hard_pct cfg.daily_drawdown_breach_pct ≡ true)
          × (less_than cfg.overall_drawdown_soft_pct cfg.overall_drawdown_hard_pct ≡ true)
          × (less_than cfg.overall_drawdown_hard_pct cfg.overall_drawdown_breach_pct ≡ true)
          × (greater_than cfg.initial_balance dec.nought ≡ true)
    unfolding validate
    validate_ordered cfg v = ground arith

    -- Below the lowest of three limits is below all.
    below_lowest :
        (x s h b : D)
        → less_than s h ≡ true
        → less_than h b ≡ true
        → less_than x s ≡ true
        → (less_than x h ≡ true) × (less_than x b ≡ true)
    below_lowest x s h b p q r = ground (
      arith,
      cmp_swap s h,
      cmp_swap h b,
      cmp_swap x s,
      cmp_swap x h,
      cmp_swap x b,
      le_trans h s x,
      le_trans h x s,
      le_trans b x h,
      le_trans s h x,
      le_trans b h x,
    )

    -- The daily check is silent exactly in calm.
    pub daily_silent_iff :
        (equity high : D) (cfg : Config D)
        → validate cfg ≡ none
        → greater_than high dec.nought ≡ true
        → ((check_daily_drawdown equity high cfg).1 ≡ none)
          ↔ IsCalm equity high cfg.daily_drawdown_soft_pct
    unfolding check_daily_drawdown
    daily_silent_iff equity high cfg v p =
        let (s, h, _, _, _) = validate_ordered cfg v in
        ground (
          arith,
          below_lowest (fall_pct equity high) cfg.daily_drawdown_soft_pct
              cfg.daily_drawdown_hard_pct cfg.daily_drawdown_breach_pct s h,
        )

    pub overall_silent_iff :
        (equity : D) (cfg : Config D)
        → validate cfg ≡ none
        → ((check_overall_drawdown equity cfg.initial_balance cfg).1 ≡ none)
          ↔ IsCalm equity cfg.initial_balance cfg.overall_drawdown_soft_pct
    unfolding check_overall_drawdown
    overall_silent_iff equity cfg v =
        let (_, _, s, h, _) = validate_ordered cfg v in
        ground (
          arith,
          below_lowest (fall_pct equity cfg.initial_balance) cfg.overall_drawdown_soft_pct
              cfg.overall_drawdown_hard_pct cfg.overall_drawdown_breach_pct s h,
        )
