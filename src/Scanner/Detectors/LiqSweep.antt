-- ===== src/Scanner/Detectors/LiqSweep.antt =====
-- internal/scanner/detector_liquidity.go: a sweep of equal lows or highs that the price takes back.
use trading_challenge.Prelude.{
  Bool, true, false, not, ◌&&◌, ◌||◌, Option, none, some, ◌>>=◌, List, [], ◌∷◌, ◌++◌, length, foldl,
  select, some_of, take, drop, String, if◌then◌else◌, ltb, leb, ℕ, ◌-◌, ℤ, pos, pos_part, lt_ℤ,
  add64, lookup, Float64,
}
use trading_challenge.Funding.Regime.{tail}
use trading_challenge.Scanner.Types.{Signal, Candle, Direction, number, short, long}
use trading_challenge.Scanner.Market.{MarketState, tf_15m, clamp, raised}
use trading_challenge.Scanner.Momentum.{SwingPoint, find_swing_points}

pub record LiqSweepReclaimConfig {ℓ} (F : Type ℓ) : Type ℓ where
  pub swing_lookback : ℤ
  pub equal_level_tolerance_pct : F
  pub sweep_beyond_pct : F
  pub reclaim_candles : ℤ
  pub candle_tf : String
  pub min_fvg_size_pct : F

-- What the recent candles did to a level.
pub record Sweep {ℓ} (F : Type ℓ) : Type ℓ where
  pub swept : Bool
  pub reclaimed : Bool
  pub depth : F

module _ {ℓ} {F : Type ℓ} ⦃flt : Float64 F⦄ where
  abbrev pub default_config : LiqSweepReclaimConfig F
  default_config = record {
    swing_lookback = pos 3;
    equal_level_tolerance_pct = flt.lit 15 2;
    sweep_beyond_pct = flt.lit 5 2;
    reclaim_candles = pos 5;
    candle_tf = tf_15m;
    min_fvg_size_pct = flt.lit 1 1;
  }

  abbrev are_equal : LiqSweepReclaimConfig F → SwingPoint F → SwingPoint F → Bool
  are_equal cfg s t =
      flt.le (flt.mul (flt.div (flt.abs (flt.sub s.price t.price)) s.price) (flt.lit 100 0))
        cfg.equal_level_tolerance_pct

  -- The level of the last two points that are equal, from the level so far.
  unfoldable liquidity_level :
      (pick : F → F → F) → LiqSweepReclaimConfig F → F → List (SwingPoint F) → F
  liquidity_level pick cfg level [] = level
  liquidity_level pick cfg level (s ∷ swings) =
      liquidity_level pick cfg
        (foldl (λ l t. if are_equal cfg s t then pick s.price t.price else l) level swings) swings

  -- The loop over the recent candles: a candle that sweeps the level, how deep it goes, and whether one of the
  -- next closes is back.
  unfoldable sweep_from :
      (sweeps is_back : Candle F → Bool) (depth_of : Candle F → F)
      → (reclaim : ℕ) → Sweep F
      → List (Candle F)
      → Sweep F
  unfolding some_of
  sweep_from sweeps is_back depth_of reclaim s [] = s
  sweep_from sweeps is_back depth_of reclaim s (c ∷ candles) =
      let next : Sweep F =
        if sweeps c
        then record {
          swept = true;
          reclaimed = s.reclaimed || some_of is_back (take reclaim candles);
          depth = if flt.lt s.depth (depth_of c) then depth_of c else s.depth;
        }
        else s in
      sweep_from sweeps is_back depth_of reclaim next candles

  abbrev no_sweep : Sweep F
  no_sweep = record { swept = false; reclaimed = false; depth = flt.lit 0 0 }

  -- Some candle and the next but one leave a gap.
  unfoldable has_gap : (gap : Candle F → Candle F → Bool) → List (Candle F) → Bool
  has_gap gap (a ∷ b ∷ c ∷ candles) = gap a c || has_gap gap (b ∷ c ∷ candles)
  has_gap gap _ = false

  -- The candles where the gap is looked for: none if there are fewer than are asked for.
  abbrev gap_window : (reclaim : ℕ) → List (Candle F) → List (Candle F)
  gap_window reclaim candles =
      if leb reclaim (length candles) then drop (length candles - reclaim) candles else []

  abbrev recent_window : LiqSweepReclaimConfig F → List (Candle F) → Option (List (Candle F))
  recent_window cfg candles =
      let window = add64 cfg.reclaim_candles cfg.reclaim_candles in
      if lt_ℤ (pos (length candles)) window then some candles else tail window candles

  unfoldable gap_up : LiqSweepReclaimConfig F → Candle F → Candle F → Bool
  gap_up cfg a c =
      flt.lt a.high c.low
      && flt.le cfg.min_fvg_size_pct
          (flt.mul (flt.div (flt.sub c.low a.high) a.close) (flt.lit 100 0))

  unfoldable gap_down : LiqSweepReclaimConfig F → Candle F → Candle F → Bool
  gap_down cfg a c =
      flt.lt c.high a.low
      && flt.le cfg.min_fvg_size_pct
          (flt.mul (flt.div (flt.sub a.low c.high) a.close) (flt.lit 100 0))

  -- The signal of a sweep, unless the price has not come back.
  unfoldable signal_of :
      (format : String)
      → Direction
      → MarketState F
      → (level : F) → Sweep F
      → (not_back fvg : Bool) → List (Signal F)
  unfolding clamp
  signal_of format direction state level s not_back fvg =
      let s₁ = raised (flt.lit 55 2) (flt.lt (flt.lit 2 1) s.depth) (flt.lit 15 2) in
      let s₂ = raised s₁ fvg (flt.lit 2 1) in
      if not (s.swept && s.reclaimed)
      then []
      else if not_back
      then []
      else record {
        factor = "LIQ_SWEEP_RECLAIM";
        direction = direction;
        strength = clamp s₂ (flt.lit 0 0) (flt.lit 1 0);
        detail = record {
          format = format;
          arguments = number level ∷ number s.depth ∷ [];
          suffix = if fvg then ", FVG confirmed" else "";
        };
        ts_ms = state.ts_ms;
      }
        ∷ []

  unfoldable detect_bullish_sweep :
      LiqSweepReclaimConfig F
      → MarketState F
      → List (Candle F)
      → List (SwingPoint F)
      → Option (List (Signal F))
  unfolding select liquidity_level sweep_from has_gap gap_up signal_of tail
  detect_bullish_sweep cfg state candles swings =
      let lows = select (λ s. not s.is_high) swings in
      let level = liquidity_level flt.min cfg (flt.lit 0 0) lows in
      let threshold =
        flt.mul level (flt.sub (flt.lit 1 0) (flt.div cfg.sweep_beyond_pct (flt.lit 100 0))) in
      let reclaim = pos_part cfg.reclaim_candles in
      if ltb (length lows) 2
      then some []
      else if flt.eq level (flt.lit 0 0)
      then some []
      else recent_window cfg candles >>= λ recent.
          let s =
            sweep_from (λ c. flt.lt c.low threshold) (λ c. flt.lt level c.close)
              (λ c. flt.mul (flt.div (flt.sub level c.low) level) (flt.lit 100 0)) reclaim no_sweep
              recent in
          some (
            signal_of "Sweep of equal lows $%.2f (depth %.2f%%), reclaimed" long state level s
              (flt.lt state.price level) (has_gap (gap_up cfg) (gap_window reclaim candles)))

  unfoldable detect_bearish_sweep :
      LiqSweepReclaimConfig F
      → MarketState F
      → List (Candle F)
      → List (SwingPoint F)
      → Option (List (Signal F))
  unfolding select liquidity_level sweep_from has_gap gap_down signal_of tail
  detect_bearish_sweep cfg state candles swings =
      let highs = select (λ s. s.is_high) swings in
      let level = liquidity_level flt.max cfg (flt.lit 0 0) highs in
      let threshold =
        flt.mul level (flt.add (flt.lit 1 0) (flt.div cfg.sweep_beyond_pct (flt.lit 100 0))) in
      let reclaim = pos_part cfg.reclaim_candles in
      if ltb (length highs) 2
      then some []
      else if flt.eq level (flt.lit 0 0)
      then some []
      else recent_window cfg candles >>= λ recent.
          let s =
            sweep_from (λ c. flt.lt threshold c.high) (λ c. flt.lt c.close level)
              (λ c. flt.mul (flt.div (flt.sub c.high level) level) (flt.lit 100 0)) reclaim no_sweep
              recent in
          some (
            signal_of "Sweep of equal highs $%.2f (depth %.2f%%), reclaimed" short state level s
              (flt.lt level state.price) (has_gap (gap_down cfg) (gap_window reclaim candles)))

  unfoldable pub detect : LiqSweepReclaimConfig F → MarketState F → Option (List (Signal F))
  unfolding lookup find_swing_points detect_bullish_sweep detect_bearish_sweep
  detect cfg state = elim (lookup cfg.candle_tf state.candles) [
    | none ↦ some []
    | some candles ↦
        if ltb (length candles) 30
        then some []
        else find_swing_points candles cfg.swing_lookback >>= λ swings.
            if ltb (length swings) 4
            then some []
            else detect_bullish_sweep cfg state candles swings >>= λ bullish.
                detect_bearish_sweep cfg state candles swings >>= λ bearish.
                some (bullish ++ bearish)
  ]
