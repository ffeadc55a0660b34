-- ===== src/Scanner/Detectors/RangeVwap.antt =====
-- internal/scanner/detector_vwap.go: the price at an end of its range, away from the volume-weighted price.
use trading_challenge.Prelude.{
  Bool, true, false, ◌&&◌, ◌||◌, Option, none, some, ◌>>=◌, List, [], ◌∷◌, ◌++◌, length, last,
  String, if◌then◌else◌, ℤ, pos, lt_ℤ, lookup, Float64,
}
use trading_challenge.Funding.Regime.{tail}
use trading_challenge.Scanner.Types.{Signal, Candle, Detail, number, short, long}
use trading_challenge.Scanner.Market.{MarketState, tf_15m, clamp, raised, closes_of, bounds_of}
use trading_challenge.Scanner.Indicators.{VwapResult, compute_vwap, atr}
use trading_challenge.Scanner.Momentum.{rsi}
use trading_challenge.Scanner.Profile.{
  DivergenceType, bullish_divergence, bearish_divergence, poc, detect_rsi_divergence,
}

pub record RangeVwapConfig {ℓ} (F : Type ℓ) : Type ℓ where
  pub range_lookback_candles : ℤ
  pub vwap_band_sd : F
  pub range_position_threshold : F
  pub vwap_deviation_threshold : F
  pub rsi_threshold_low : F
  pub rsi_threshold_high : F
  pub rsi_period : ℤ
  pub candle_tf : String
  pub poc_bins : ℤ
  pub min_range_atr_multiple : F

abbrev is_bullish_divergence : DivergenceType → Bool
is_bullish_divergence bullish_divergence = true
is_bullish_divergence _ = false

abbrev is_bearish_divergence : DivergenceType → Bool
is_bearish_divergence bearish_divergence = true
is_bearish_divergence _ = false

-- What the two setups look at.
pub record View {ℓ} (F : Type ℓ) : Type ℓ where
  pub price_position : F
  pub vwap_deviation : F
  pub current_rsi : F
  pub poc_price : F
  pub divergence : DivergenceType

module _ {ℓ} {F : Type ℓ} ⦃flt : Float64 F⦄ where
  abbrev pub default_config : RangeVwapConfig F
  default_config = record {
    range_lookback_candles = pos 96;
    vwap_band_sd = flt.lit 2 0;
    range_position_threshold = flt.lit 20 2;
    vwap_deviation_threshold = flt.lit 15 1;
    rsi_threshold_low = flt.lit 35 0;
    rsi_threshold_high = flt.lit 65 0;
    rsi_period = pos 14;
    candle_tf = tf_15m;
    poc_bins = pos 50;
    min_range_atr_multiple = flt.lit 15 1;
  }

  -- The range is narrow for the last of the true ranges, if that is positive.
  unfoldable is_tight : RangeVwapConfig F → (range_size : F) → (ranges : List F) → Bool
  unfolding last
  is_tight cfg range_size ranges = elim (last ranges) [
    | none ↦ false
    | some current ↦
        flt.lt (flt.lit 0 0) current
        && flt.lt range_size (flt.mul current cfg.min_range_atr_multiple)
  ]

  abbrev detail_of : (format : String) → View F → Detail F
  detail_of format v = record {
    format = format;
    arguments =
        number (flt.mul v.price_position (flt.lit 100 0))
        ∷ number v.vwap_deviation
        ∷ number v.current_rsi
        ∷ number v.poc_price
        ∷ [];
    suffix = "";
  }

  abbrev is_far : RangeVwapConfig F → View F → Bool
  is_far cfg v =
      flt.lt (flt.mul cfg.vwap_deviation_threshold (flt.lit 15 1)) (flt.abs v.vwap_deviation)

  unfoldable range_bottom : RangeVwapConfig F → MarketState F → View F → List (Signal F)
  unfolding clamp
  range_bottom cfg state v =
      let s₁ = raised (flt.lit 5 1) (is_far cfg v) (flt.lit 15 2) in
      let s₂ = raised s₁ (flt.lt v.current_rsi (flt.lit 25 0)) (flt.lit 15 2) in
      let s₃ = raised s₂ (flt.lt state.price v.poc_price) (flt.lit 1 1) in
      let s₄ = raised s₃ (is_bullish_divergence v.divergence) (flt.lit 1 1) in
      if flt.le v.price_position cfg.range_position_threshold
        && (flt.le v.vwap_deviation (flt.neg cfg.vwap_deviation_threshold)
            && flt.le v.current_rsi cfg.rsi_threshold_low)
      then record {
        factor = "RANGE_VWAP_REVERT";
        direction = long;
        strength = clamp s₄ (flt.lit 0 0) (flt.lit 1 0);
        detail = detail_of "Range bottom (%.0f%%), VWAP dev %.1fσ, RSI %.1f, POC $%.0f" v;
        ts_ms = state.ts_ms;
      }
        ∷ []
      else []

  unfoldable range_top : RangeVwapConfig F → MarketState F → View F → List (Signal F)
  unfolding clamp
  range_top cfg state v =
      let s₁ = raised (flt.lit 5 1) (is_far cfg v) (flt.lit 15 2) in
      let s₂ = raised s₁ (flt.lt (flt.lit 75 0) v.current_rsi) (flt.lit 15 2) in
      let s₃ = raised s₂ (flt.lt v.poc_price state.price) (flt.lit 1 1) in
      let s₄ = raised s₃ (is_bearish_divergence v.divergence) (flt.lit 1 1) in
      if flt.le (flt.sub (flt.lit 1 0) cfg.range_position_threshold) v.price_position
        && (flt.le cfg.vwap_deviation_threshold v.vwap_deviation
            && flt.le cfg.rsi_threshold_high v.current_rsi)
      then record {
        factor = "RANGE_VWAP_REVERT";
        direction = short;
        strength = clamp s₄ (flt.lit 0 0) (flt.lit 1 0);
        detail = detail_of "Range top (%.0f%%), VWAP dev +%.1fσ, RSI %.1f, POC $%.0f" v;
        ts_ms = state.ts_ms;
      }
        ∷ []
      else []

  -- The setups, once the range and the volume-weighted price are known. The divergence is the same for both;
  -- looking for it cannot panic here, since the index has a value for each candle.
  unfoldable setups :
      RangeVwapConfig F
      → MarketState F
      → (low range_size : F) → VwapResult F
      → List (Candle F)
      → Option (List (Signal F))
  unfolding range_bottom range_top rsi poc detect_rsi_divergence last
  setups cfg state low range_size v candles =
      let rsi_values = rsi (closes_of candles) cfg.rsi_period in
      if flt.eq v.vwap (flt.lit 0 0) || flt.eq v.std_dev (flt.lit 0 0)
      then some []
      else elim (last rsi_values) [
        | none ↦ some []
        | some current_rsi ↦ detect_rsi_divergence candles rsi_values 20 >>= λ divergence.
            let view : View F = record {
              price_position = flt.div (flt.sub state.price low) range_size;
              vwap_deviation = flt.div (flt.sub state.price v.vwap) v.std_dev;
              current_rsi = current_rsi;
              poc_price = poc candles cfg.poc_bins;
              divergence = divergence;
            } in
            some (range_bottom cfg state view ++ range_top cfg state view)
      ]

  unfoldable in_range :
      RangeVwapConfig F → MarketState F → List (Candle F) → Option (List (Signal F))
  unfolding bounds_of atr is_tight compute_vwap setups
  in_range cfg state [] = if flt.le state.price (flt.lit 0 0) then some [] else none
  in_range cfg state (first ∷ rest) =
      let (high, low) = bounds_of first.high first.low (first ∷ rest) in
      let range_size = flt.sub high low in
      if flt.le state.price (flt.lit 0 0)
      then some []
      else if flt.le range_size (flt.lit 0 0)
      then some []
      else atr (first ∷ rest) (pos 14) >>= λ ranges.
          if is_tight cfg range_size ranges
          then some []
          else setups cfg state low range_size (compute_vwap (first ∷ rest) cfg.vwap_band_sd)
              (first ∷ rest)

  unfoldable pub detect : RangeVwapConfig F → MarketState F → Option (List (Signal F))
  unfolding in_range lookup tail
  detect cfg state = elim (lookup cfg.candle_tf state.candles) [
    | none ↦ some []
    | some candles ↦
        if lt_ℤ (pos (length candles)) cfg.range_lookback_candles
        then some []
        else tail cfg.range_lookback_candles candles >>= in_range cfg state
  ]
