-- ===== src/Scanner/RiskManager.antt =====
-- internal/scanner/risk_manager.go: the size of a position, its stop-loss and its targets. An answer with a
-- text is its Boolean.
use trading_challenge.Prelude.{
  Bool, true, false, ◌&&◌, String, if◌then◌else◌, ℤ, pos, le_ℤ, Float64,
}
use trading_challenge.Scanner.Types.{Direction, is_long, RiskParams}

pub record RiskConfig {ℓ} (F : Type ℓ) : Type ℓ where
  pub max_risk_per_trade_pct : F
  pub default_leverage : F
  pub max_leverage : F
  pub default_rr : F
  pub tp2_multiplier : F
  pub tp3_multiplier : F
  pub atr_multiplier_sl : F
  pub min_sl_distance_pct : F
  pub max_sl_distance_pct : F
  pub min_position_size_usd : F
  pub min_trading_day_trade_value_pct : F
  pub min_trading_day_pnl_pct : F
  pub daily_max_drawdown_pct : F
  pub max_concurrent_trades : ℤ
  pub correlation_penalty : F

-- The errors of `ComputeRiskParams`.
pub data RiskError {ℓ} (F : Type ℓ) : Type ℓ where
  entry_not_positive balance_not_positive : RiskError F
  size_below_minimum : (size minimum : F) → RiskError F

pub data Result {ℓ κ} (E : Type ℓ) (A : Type κ) : Type (ℓ ⊔ κ) where
  ok : A → Result E A
  error : E → Result E A

module _ {ℓ} {F : Type ℓ} ⦃flt : Float64 F⦄ where
  abbrev pub default_risk_config : RiskConfig F
  default_risk_config = record {
    max_risk_per_trade_pct = flt.lit 5 1;
    default_leverage = flt.lit 10 0;
    max_leverage = flt.lit 20 0;
    default_rr = flt.lit 2 0;
    tp2_multiplier = flt.lit 3 0;
    tp3_multiplier = flt.lit 4 0;
    atr_multiplier_sl = flt.lit 15 1;
    min_sl_distance_pct = flt.lit 3 1;
    max_sl_distance_pct = flt.lit 2 0;
    min_position_size_usd = flt.lit 50 0;
    min_trading_day_trade_value_pct = flt.lit 5 0;
    min_trading_day_pnl_pct = flt.lit 1 0;
    daily_max_drawdown_pct = flt.lit 4 0;
    max_concurrent_trades = pos 3;
    correlation_penalty = flt.lit 5 1;
  }

  unfoldable pub structure_sl : Direction → (entry level : F) → F
  unfolding is_long
  structure_sl direction entry level =
      if flt.lt (flt.lit 0 0) level
      then flt.add (if is_long direction then flt.sub entry level else flt.sub level entry)
          (flt.mul entry (flt.lit 1 3))
      else flt.lit 0 0

  unfoldable pub sl_distance : RiskConfig F → Direction → (entry atr level : F) → F
  unfolding structure_sl
  sl_distance cfg direction entry atr level =
      let atr_sl = flt.mul atr cfg.atr_multiplier_sl in
      let by_structure = structure_sl direction entry level in
      let sl =
        if flt.lt (flt.lit 0 0) by_structure && flt.lt by_structure (flt.mul atr_sl (flt.lit 2 0))
        then by_structure
        else atr_sl in
      let least = flt.mul entry (flt.div cfg.min_sl_distance_pct (flt.lit 100 0)) in
      let most = flt.mul entry (flt.div cfg.max_sl_distance_pct (flt.lit 100 0)) in
      flt.min (flt.max sl least) most

  unfoldable pub confidence_scale : ℤ → F
  confidence_scale score =
      if le_ℤ (pos 5) score
      then flt.lit 1 0
      else if le_ℤ (pos 4) score
      then flt.lit 9 1
      else if le_ℤ (pos 3) score
      then flt.lit 8 1
      else if le_ℤ (pos 2) score
      then flt.lit 65 2
      else flt.lit 5 1

  -- The value, the quantity and the risk of the position.
  unfoldable pub position_of :
      RiskConfig F → (entry balance initial distance : F) → (score : ℤ) → F × F × F
  unfolding confidence_scale
  position_of cfg entry balance initial distance score =
      let budget =
        flt.mul (flt.mul balance (flt.div cfg.max_risk_per_trade_pct (flt.lit 100 0)))
          (confidence_scale score) in
      let qty = flt.div budget distance in
      let usd = flt.mul qty entry in
      let levered = flt.mul balance cfg.default_leverage in
      let over = flt.lt levered usd in
      let usd₁ = if over then levered else usd in
      let qty₁ = if over then flt.div levered entry else qty in
      let risk = flt.mul qty₁ distance in
      let allowed = flt.mul initial (flt.lit 3 2) in
      let capped = flt.div allowed distance in
      if flt.lt allowed risk then (flt.mul capped entry, capped, allowed) else (usd₁, qty₁, risk)

  -- The price at a distance from the entry, in the direction of the trade.
  abbrev ahead : Direction → (entry distance : F) → F
  ahead direction entry distance =
      if is_long direction then flt.add entry distance else flt.sub entry distance

  abbrev behind : Direction → (entry distance : F) → F
  behind direction entry distance =
      if is_long direction then flt.sub entry distance else flt.add entry distance

  unfoldable pub compute_risk_params :
      RiskConfig F
      → Direction
      → (entry atr balance initial : F) → (score : ℤ) → (level : F)
      → Result (RiskError F) (RiskParams F)
  unfolding sl_distance position_of is_long
  compute_risk_params cfg direction entry atr balance initial score level =
      let distance = sl_distance cfg direction entry atr level in
      let (usd, qty, risk) = position_of cfg entry balance initial distance score in
      if flt.le entry (flt.lit 0 0)
      then error entry_not_positive
      else if flt.le balance (flt.lit 0 0)
      then error balance_not_positive
      else if flt.lt usd cfg.min_position_size_usd
      then error (size_below_minimum usd cfg.min_position_size_usd)
      else ok (record {
        entry = entry;
        stop_loss = behind direction entry distance;
        take_profit1 = ahead direction entry (flt.mul distance cfg.default_rr);
        take_profit2 = ahead direction entry (flt.mul distance cfg.tp2_multiplier);
        take_profit3 = ahead direction entry (flt.mul distance cfg.tp3_multiplier);
        position_size_usd = usd;
        position_size_qty = qty;
        risk_usd = risk;
        risk_pct = flt.mul (flt.div risk balance) (flt.lit 100 0);
        risk_reward_ratio = cfg.default_rr;
        leverage = cfg.default_leverage;
        sl_distance_pct = flt.mul (flt.div distance entry) (flt.lit 100 0);
      })

  unfoldable validate_for_trading_day : RiskConfig F → (size initial : F) → Bool
  validate_for_trading_day cfg size initial =
      if flt.lt size (flt.mul initial (flt.div cfg.min_trading_day_trade_value_pct (flt.lit 100 0)))
      then false
      else true

  unfoldable pub check_daily_risk_budget : RiskConfig F → (daily_pnl balance pending : F) → Bool
  check_daily_risk_budget cfg daily_pnl balance pending =
      let most = flt.mul balance (flt.div cfg.daily_max_drawdown_pct (flt.lit 100 0)) in
      let exposure = flt.add (flt.abs daily_pnl) pending in
      let remaining = flt.sub most (flt.abs (flt.min daily_pnl (flt.lit 0 0))) in
      if flt.lt daily_pnl (flt.lit 0 0) && flt.lt most exposure
      then false
      else if flt.lt remaining pending
      then false
      else true

  unfoldable suggest_sl_type : (is_challenge : Bool) (volume_24h : F) → String
  suggest_sl_type is_challenge volume_24h =
      if is_challenge
      then "MARKET"
      else if flt.lt (flt.lit 500_000_000 0) volume_24h
      then "LIMIT"
      else "MARKET"
