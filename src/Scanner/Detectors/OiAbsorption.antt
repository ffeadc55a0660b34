-- ===== src/Scanner/Detectors/OiAbsorption.antt =====
-- internal/scanner/detector_oi.go: a change of the open interest against the change of the price.
use trading_challenge.Prelude.{
  Bool, false, ◌&&◌, ◌||◌, Option, none, some, ◌>>=◌, List, [], ◌∷◌, ◌++◌, length, last, String,
  if◌then◌else◌, ℤ, pos, lt_ℤ, lookup, Float64,
}
use trading_challenge.Funding.Regime.{tail}
use trading_challenge.Scanner.Types.{Signal, Candle, Direction, number, short, long}
use trading_challenge.Scanner.Market.{
  MarketState, OpenInterestSnapshot, tf_15m, clamp, raised, closes_of, bounds_of,
}
use trading_challenge.Scanner.Momentum.{rsi}

pub record OiAbsorptionConfig {ℓ} (F : Type ℓ) : Type ℓ where
  pub oi_spike_threshold_pct : F
  pub price_absorption_pct : F
  pub oi_drop_with_price_pct : F
  pub min_oi_data_points : ℤ
  pub lookback_candles : ℤ
  pub candle_tf : String

module _ {ℓ} {F : Type ℓ} ⦃flt : Float64 F⦄ where
  abbrev pub default_config : OiAbsorptionConfig F
  default_config = record {
    oi_spike_threshold_pct = flt.lit 5 0;
    price_absorption_pct = flt.lit 5 1;
    oi_drop_with_price_pct = flt.lit 5 0;
    min_oi_data_points = pos 4;
    lookback_candles = pos 20;
    candle_tf = tf_15m;
  }

  -- The change from one value to another, in percent.
  unfoldable change_pct : (from to : F) → F
  change_pct from to = flt.mul (flt.div (flt.sub to from) from) (flt.lit 100 0)

  -- Where the last price stands in the range of the candles.
  unfoldable price_position : (price_end : F) → Candle F → List (Candle F) → F
  unfolding bounds_of
  price_position price_end first candles =
      let (high, low) = bounds_of first.high first.low candles in
      let price_range = flt.sub high low in
      if flt.lt (flt.lit 0 0) price_range
      then flt.div (flt.sub price_end low) price_range
      else flt.lit 5 1

  abbrev absorption_direction : (position : F) → Direction
  absorption_direction position =
      if flt.lt position (flt.lit 4 1)
      then long
      else if flt.lt (flt.lit 6 1) position
      then short
      else long

  -- Setup 1: the open interest rises and the price does not move.
  unfoldable absorption :
      OiAbsorptionConfig F → MarketState F → (oi_change price_change position : F) → List (Signal F)
  absorption cfg state oi_change price_change position =
      if flt.le cfg.oi_spike_threshold_pct oi_change
        && flt.le (flt.abs price_change) cfg.price_absorption_pct
      then record {
        factor = "OI_ABSORPTION";
        direction = absorption_direction position;
        strength =
            if flt.lt (flt.mul cfg.oi_spike_threshold_pct (flt.lit 2 0)) oi_change
            then flt.lit 8 1
            else flt.lit 6 1;
        detail = record {
          format = "OI +%.1f%% with price flat (%.2f%%), absorption at %.0f%% of range";
          arguments =
              number oi_change
              ∷ number price_change
              ∷ number (flt.mul position (flt.lit 100 0))
              ∷ [];
          suffix = "";
        };
        ts_ms = state.ts_ms;
      }
        ∷ []
      else []

  -- The strength of a reversal; `exhausted` is what the index says.
  unfoldable reversal_strength : OiAbsorptionConfig F → (oi_change : F) → (exhausted : Bool) → F
  unfolding clamp
  reversal_strength cfg oi_change exhausted =
      let base =
        if flt.le oi_change (flt.mul (flt.neg cfg.oi_drop_with_price_pct) (flt.lit 2 0))
        then flt.lit 7 1
        else flt.lit 5 1 in
      clamp (raised base exhausted (flt.lit 2 1)) (flt.lit 0 0) (flt.lit 1 0)

  abbrev index_tests : (F → Bool) → List (Candle F) → Bool
  index_tests test candles = elim (last (rsi (closes_of candles) (pos 14))) [
    | none ↦ false
    | some v ↦ test v
  ]

  -- Setup 2: the open interest and the price fall.
  unfoldable long_liquidation :
      OiAbsorptionConfig F
      → MarketState F
      → (oi_change price_change : F) → List (Candle F)
      → List (Signal F)
  unfolding reversal_strength rsi last
  long_liquidation cfg state oi_change price_change candles =
      if flt.le oi_change (flt.neg cfg.oi_drop_with_price_pct)
        && flt.lt price_change (flt.neg (flt.lit 1 0))
      then record {
        factor = "OI_ABSORPTION";
        direction = long;
        strength =
            reversal_strength cfg oi_change (index_tests (λ v. flt.lt v (flt.lit 30 0)) candles);
        detail = record {
          format = "Long liquidation: OI %.1f%%, price %.1f%% — reversal setup";
          arguments = number oi_change ∷ number price_change ∷ [];
          suffix = "";
        };
        ts_ms = state.ts_ms;
      }
        ∷ []
      else []

  -- Setup 3: the open interest falls and the price rises.
  unfoldable short_squeeze :
      OiAbsorptionConfig F
      → MarketState F
      → (oi_change price_change : F) → List (Candle F)
      → List (Signal F)
  unfolding reversal_strength rsi last
  short_squeeze cfg state oi_change price_change candles =
      if flt.le oi_change (flt.neg cfg.oi_drop_with_price_pct) && flt.lt (flt.lit 1 0) price_change
      then record {
        factor = "OI_ABSORPTION";
        direction = short;
        strength =
            reversal_strength cfg oi_change (index_tests (λ v. flt.lt (flt.lit 70 0) v) candles);
        detail = record {
          format = "Short squeeze exhaustion: OI %.1f%%, price +%.1f%% — reversal setup";
          arguments = number oi_change ∷ number price_change ∷ [];
          suffix = "";
        };
        ts_ms = state.ts_ms;
      }
        ∷ []
      else []

  -- The three setups on the latest candles; with none of them there is no first close.
  unfoldable setups :
      OiAbsorptionConfig F
      → MarketState F
      → (oi_change : F) → List (Candle F)
      → Option (List (Signal F))
  unfolding change_pct price_position absorption long_liquidation short_squeeze last
  setups cfg state oi_change [] = none
  setups cfg state oi_change (first ∷ rest) = elim (last (closes_of (first ∷ rest))) [
    | none ↦ none
    | some price_end ↦
        let price_change = change_pct first.close price_end in
        let position = price_position price_end first (first ∷ rest) in
        if flt.eq first.close (flt.lit 0 0)
        then some []
        else some (
            absorption cfg state oi_change price_change position
            ++ (long_liquidation cfg state oi_change price_change (first ∷ rest)
                ++ short_squeeze cfg state oi_change price_change (first ∷ rest)))
  ]

  -- The change of the open interest comes first, then the price.
  unfoldable with_history :
      OiAbsorptionConfig F
      → MarketState F
      → List (Candle F)
      → List (OpenInterestSnapshot F)
      → Option (List (Signal F))
  unfolding change_pct setups last tail
  with_history cfg state candles [] = none
  with_history cfg state candles (recent ∷ rest) = elim (last (recent ∷ rest)) [
    | none ↦ none
    | some oldest ↦
        if flt.eq oldest.open_interest (flt.lit 0 0)
        then some []
        else tail cfg.lookback_candles candles
          >>= setups cfg state (change_pct oldest.open_interest recent.open_interest)
  ]

  unfoldable pub detect : OiAbsorptionConfig F → MarketState F → Option (List (Signal F))
  unfolding with_history lookup
  detect cfg state = elim (lookup cfg.candle_tf state.candles) [
    | none ↦ some []
    | some candles ↦
        if lt_ℤ (pos (length state.oi_history)) cfg.min_oi_data_points
          || lt_ℤ (pos (length candles)) cfg.lookback_candles
        then some []
        else with_history cfg state candles state.oi_history
  ]
