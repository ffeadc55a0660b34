-- ===== src/Scanner/Types.antt =====
-- internal/scanner/types.go: candles, directions, signals, the parameters of a trade and the alerts. A confluence
-- factor and a timeframe are texts. The text that explains an answer is left out.
use trading_challenge.Prelude.{
  Bool, true, false, Option, List, String, if◌then◌else◌, ℤ, le_ℤ, Time, Float64,
}

pub record Candle {ℓ} (F : Type ℓ) : Type ℓ where
  pub open_time : ℤ
  pub open_price : F
  pub high : F
  pub low : F
  pub close : F
  pub volume : F
  pub turnover : F
  pub close_time : ℤ

pub data Direction : Type 0 where
  long short : Direction

-- An argument of a format.
pub data Printed {ℓ} (F : Type ℓ) : Type ℓ where
  number : F → Printed F
  int : ℤ → Printed F
  words : String → Printed F

-- A printed text: its format, the arguments, and what is added after it.
pub record Detail {ℓ} (F : Type ℓ) : Type ℓ where
  pub format : String
  pub arguments : List (Printed F)
  pub suffix : String

pub record Signal {ℓ} (F : Type ℓ) : Type ℓ where
  pub factor : String
  pub direction : Direction
  pub strength : F
  pub detail : Detail F
  pub ts_ms : ℤ

pub data TradeOutcome : Type 0 where
  pending tp_hit sl_hit manual expired cancelled : TradeOutcome

pub record RiskParams {ℓ} (F : Type ℓ) : Type ℓ where
  pub entry : F
  pub stop_loss : F
  pub take_profit1 : F
  pub take_profit2 : F
  pub take_profit3 : F
  pub position_size_usd : F
  pub position_size_qty : F
  pub risk_usd : F
  pub risk_pct : F
  pub risk_reward_ratio : F
  pub leverage : F
  pub sl_distance_pct : F

-- What the detail of an outcome prints.
pub record OutcomeDetail {ℓ} (F : Type ℓ) : Type ℓ where
  pub outcome : TradeOutcome
  pub exit_price : F
  pub pnl_usd : F
  pub pnl_pct : F

pub record SignalAlert {ℓ} (F : Type ℓ) : Type ℓ where
  pub id : String
  pub symbol : String
  pub direction : Direction
  pub signals : List (Signal F)
  pub confluence_score : ℤ
  pub risk : RiskParams F
  pub timeframe : String
  pub expires_at : Time
  pub created_at : Time
  pub outcome : TradeOutcome
  pub outcome_detail : Option (OutcomeDetail F)
  pub outcome_pnl : F
  pub outcome_at : Option Time

unfoldable pub is_long : Direction → Bool
is_long long = true
is_long short = false

module _ {ℓ} {F : Type ℓ} where
  unfoldable meets_min_confluence : SignalAlert F → ℤ → Bool
  meets_min_confluence a least = le_ℤ least a.confluence_score

module _ {ℓ} {F : Type ℓ} ⦃flt : Float64 F⦄ where
  unfoldable pub qualifies_for_trading_day : SignalAlert F → (initial_balance : F) → Bool
  qualifies_for_trading_day a initial_balance =
      let size = a.risk.position_size_usd in
      let potential =
        flt.div (flt.mul (flt.mul size a.risk.risk_reward_ratio) a.risk.sl_distance_pct)
          (flt.lit 100 0) in
      if flt.lt size (flt.mul initial_balance (flt.lit 5 2))
      then false
      else if flt.lt potential (flt.mul size (flt.lit 1 2))
      then false
      else true
