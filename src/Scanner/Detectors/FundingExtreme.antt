-- ===== src/Scanner/Detectors/FundingExtreme.antt =====
-- internal/scanner/detector_funding.go: an extreme funding rate with a stalling momentum.
use trading_challenge.Prelude.{
  Bool, false, ◌||◌, Option, none, some, List, [], ◌∷◌, ◌++◌, length, select, last, String,
  if◌then◌else◌, ℤ, pos, lt_ℤ, add64, quot, lookup, Float64,
}
use trading_challenge.Scanner.Types.{Signal, Detail, number, short, long}
use trading_challenge.Scanner.Market.{
  MarketState, FundingSnapshot, OpenInterestSnapshot, tf_15m, clamp, raised, closes_of,
}
use trading_challenge.Scanner.Momentum.{rsi}

pub record FundingExtremeConfig {ℓ} (F : Type ℓ) : Type ℓ where
  pub extreme_threshold : F
  pub momentum_stall_rsi_low : F
  pub momentum_stall_rsi_high : F
  pub min_history_points : ℤ
  pub oi_drop_threshold_pct : F
  pub rsi_period : ℤ
  pub candle_tf : String

module _ {ℓ} {F : Type ℓ} ⦃flt : Float64 F⦄ where
  abbrev pub default_config : FundingExtremeConfig F
  default_config = record {
    extreme_threshold = flt.lit 5 4;
    momentum_stall_rsi_low = flt.lit 40 0;
    momentum_stall_rsi_high = flt.lit 60 0;
    min_history_points = pos 3;
    oi_drop_threshold_pct = flt.lit 3 0;
    rsi_period = pos 14;
    candle_tf = tf_15m;
  }

  abbrev extremes : FundingExtremeConfig F → List (FundingSnapshot F) → ℤ
  extremes cfg history =
      pos (length (select (λ f. flt.le cfg.extreme_threshold (flt.abs f.funding_rate)) history))

  -- The open interest fell by the threshold at least, from the oldest snapshot to the latest.
  unfoldable oi_declining : FundingExtremeConfig F → List (OpenInterestSnapshot F) → Bool
  oi_declining cfg (recent ∷ second ∷ rest) = elim (last (second ∷ rest)) [
    | none ↦ false
    | some older ↦
        let change =
          flt.mul (flt.div (flt.sub recent.open_interest older.open_interest) older.open_interest)
            (flt.lit 100 0) in
        if flt.lt (flt.lit 0 0) older.open_interest
        then flt.le change (flt.neg cfg.oi_drop_threshold_pct)
        else false
  ]
  oi_declining cfg _ = false

  unfoldable detail_of : (format : String) → (funding current_rsi : F) → Bool → Detail F
  detail_of format funding current_rsi declining = record {
    format = format;
    arguments = number (flt.mul funding (flt.lit 100 0)) ∷ number current_rsi ∷ [];
    suffix = if declining then ", OI declining" else "";
  }

  unfoldable short_signal :
      FundingExtremeConfig F → MarketState F → (current_rsi : F) → Bool → List (Signal F)
  unfolding clamp detail_of
  short_signal cfg state current_rsi declining =
      let s₁ =
        raised (flt.lit 5 1) (flt.lt current_rsi cfg.momentum_stall_rsi_high) (flt.lit 2 1) in
      let s₂ = raised s₁ (flt.lt current_rsi (flt.lit 50 0)) (flt.lit 1 1) in
      let s₃ = raised s₂ declining (flt.lit 2 1) in
      if flt.lt cfg.extreme_threshold state.funding_rate
      then record {
        factor = "FUNDING_EXTREME";
        direction = short;
        strength = clamp s₃ (flt.lit 0 0) (flt.lit 1 0);
        detail =
            detail_of "Funding +%.4f%% (extreme), RSI %.1f" state.funding_rate current_rsi
              declining;
        ts_ms = state.ts_ms;
      }
        ∷ []
      else []

  unfoldable long_signal :
      FundingExtremeConfig F → MarketState F → (current_rsi : F) → Bool → List (Signal F)
  unfolding clamp detail_of
  long_signal cfg state current_rsi declining =
      let s₁ = raised (flt.lit 5 1) (flt.lt cfg.momentum_stall_rsi_low current_rsi) (flt.lit 2 1) in
      let s₂ = raised s₁ (flt.lt (flt.lit 50 0) current_rsi) (flt.lit 1 1) in
      let s₃ = raised s₂ declining (flt.lit 2 1) in
      if flt.lt state.funding_rate (flt.neg cfg.extreme_threshold)
      then record {
        factor = "FUNDING_EXTREME";
        direction = long;
        strength = clamp s₃ (flt.lit 0 0) (flt.lit 1 0);
        detail =
            detail_of "Funding %.4f%% (extreme negative), RSI %.1f" state.funding_rate current_rsi
              declining;
        ts_ms = state.ts_ms;
      }
        ∷ []
      else []

  -- The two signals with the index of the last candle, if there is one.
  unfoldable signals_with : FundingExtremeConfig F → MarketState F → Option F → List (Signal F)
  unfolding short_signal long_signal oi_declining
  signals_with cfg state none = []
  signals_with cfg state (some current_rsi) =
      let declining = oi_declining cfg state.oi_history in
      short_signal cfg state current_rsi declining ++ long_signal cfg state current_rsi declining

  unfoldable pub detect : FundingExtremeConfig F → MarketState F → Option (List (Signal F))
  unfolding signals_with lookup select rsi last quot
  detect cfg state = elim (lookup cfg.candle_tf state.candles) [
    | none ↦ some []
    | some candles ↦
        if lt_ℤ (pos (length state.funding_history)) cfg.min_history_points
          || lt_ℤ (pos (length candles)) (add64 cfg.rsi_period (pos 5))
        then some []
        else if flt.lt (flt.abs state.funding_rate) cfg.extreme_threshold
        then some []
        else if lt_ℤ (extremes cfg state.funding_history)
            (add64 (quot cfg.min_history_points 2) (pos 1))
        then some []
        else some (signals_with cfg state (last (rsi (closes_of candles) cfg.rsi_period)))
  ]
