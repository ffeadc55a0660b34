-- ===== src/Challenge/Config.antt =====
-- internal/challenge/config.go: the parameters, their validation, and the values derived from them.
-- `ParseConfig` applies `validate` to what the YAML library reads.
use Prim.Native.String.{String}
use trading_challenge.Prelude.{
  code_points, ℕ, ◌+◌, ◌-◌, ◌*◌, Bool, true, false, ◌&&◌, not, Option, none, some, List, [], ◌∷◌,
  ltb, leb, ◌==◌, if◌then◌else◌, ℤ, pos, le_ℤ, mul64, ns_per_second, Decimal, less_than_or_equal,
  greater_than_or_equal,
}

-- `Mode` is a string type; the constants and any other text.
pub data Mode : Type 0 where
  phase1 phase2 funded : Mode
  other : String → Mode

pub data DrawdownLevel : Type 0 where
  normal soft hard breach : DrawdownLevel

-- `DrawdownLevel.String`
level_string : DrawdownLevel → String
level_string soft = "SOFT_HALT"
level_string hard = "HARD_HALT"
level_string breach = "BREACH"
level_string normal = "NORMAL"

pub record Config {ℓ} (D : Type ℓ) : Type ℓ where
  pub enabled : Bool
  pub mode : Mode
  pub initial_balance : D
  pub daily_drawdown_soft_pct : D
  pub daily_drawdown_hard_pct : D
  pub daily_drawdown_breach_pct : D
  pub overall_drawdown_soft_pct : D
  pub overall_drawdown_hard_pct : D
  pub overall_drawdown_breach_pct : D
  pub max_risk_per_trade_pct : D
  pub profit_distribution_max_pct : D
  pub min_trading_days : ℤ
  pub stop_loss_deadline_seconds : ℤ
  pub stop_loss_default_pct : D
  pub low_cap_threshold_usd : D
  pub low_cap_max_allocation_pct : D
  pub funded_max_margin_exposure_pct : D
  pub funded_max_notional_multiplier : D
  pub safety_trade_time_utc : String
  pub safety_trade_size_usd : D

-- What the errors of `validate` are about, in the order of the checks.
pub data ConfigError : Type 0 where
  initial_balance_not_positive unknown_mode : ConfigError
  daily_soft_not_below_hard daily_hard_not_below_breach : ConfigError
  overall_soft_not_below_hard overall_hard_not_below_breach : ConfigError
  deadline_not_positive trading_days_not_positive bad_safety_time : ConfigError

is_digit : ℕ → Bool
is_digit c = leb b'0' c && leb c b'9'

-- The layout "15:04" of `time.Parse`: an hour of one or two digits below 24, a colon, a minute of two
-- digits below 60, and no more.
parse_minute : ℕ → List ℕ → Option (ℕ × ℕ)
unfolding is_digit
parse_minute h (a ∷ b ∷ []) =
    let m = (a - b'0') * 10 + (b - b'0') in
    if is_digit a && is_digit b && ltb m 60 then some (h, m) else none
parse_minute h _ = none

parse_colon : ℕ → List ℕ → Option (ℕ × ℕ)
unfolding parse_minute
parse_colon h (c ∷ rest) = if c == b':' && ltb h 24 then parse_minute h rest else none
parse_colon h [] = none

unfoldable pub parse_clock : List ℕ → Option (ℕ × ℕ)
unfolding is_digit parse_colon
parse_clock (a ∷ b ∷ rest) =
    if is_digit a
    then (if is_digit b
        then parse_colon ((a - b'0') * 10 + (b - b'0')) rest
        else parse_colon (a - b'0') (b ∷ rest))
    else none
parse_clock _ = none

is_known : Mode → Bool
is_known (other _) = false
is_known _ = true

module _ {ℓ} {D : Type ℓ} where
  unfoldable pub parse_safety_trade_time : Config D → Option (ℕ × ℕ)
  unfolding parse_clock
  parse_safety_trade_time c = parse_clock (code_points c.safety_trade_time_utc)

  -- `time.Duration(seconds) * time.Second`, in nanoseconds.
  unfoldable pub stop_loss_deadline : Config D → ℤ
  unfolding mul64
  stop_loss_deadline c = mul64 c.stop_loss_deadline_seconds (pos ns_per_second)

  unfoldable pub is_challenge_phase : Config D → Bool
  is_challenge_phase c = elim c.mode [ phase1 ↦ true | phase2 ↦ true | _ ↦ false ]

module _ {ℓ} {D : Type ℓ} ⦃dec : Decimal D⦄ where
  unfoldable pub hundred : D
  hundred = dec.of_int (pos 100)

  unfoldable pub max_risk_per_trade : Config D → D
  max_risk_per_trade c =
      dec.div (dec.mul c.initial_balance c.max_risk_per_trade_pct) (dec.of_int (pos 100))

  -- `none` is the `nil` error.
  unfoldable pub validate : Config D → Option ConfigError
  unfolding is_known
  validate c =
      if less_than_or_equal c.initial_balance dec.nought
      then some initial_balance_not_positive
      else if not (is_known c.mode)
      then some unknown_mode
      else if greater_than_or_equal c.daily_drawdown_soft_pct c.daily_drawdown_hard_pct
      then some daily_soft_not_below_hard
      else if greater_than_or_equal c.daily_drawdown_hard_pct c.daily_drawdown_breach_pct
      then some daily_hard_not_below_breach
      else if greater_than_or_equal c.overall_drawdown_soft_pct c.overall_drawdown_hard_pct
      then some overall_soft_not_below_hard
      else if greater_than_or_equal c.overall_drawdown_hard_pct c.overall_drawdown_breach_pct
      then some overall_hard_not_below_breach
      else if le_ℤ c.stop_loss_deadline_seconds (pos 0)
      then some deadline_not_positive
      else if le_ℤ c.min_trading_days (pos 0)
      then some trading_days_not_positive
      else elim (parse_safety_trade_time c) [ none ↦ some bad_safety_time | some _ ↦ none ]
