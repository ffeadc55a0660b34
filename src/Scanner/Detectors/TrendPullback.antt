-- ===== src/Scanner/Detectors/TrendPullback.antt =====
-- internal/scanner/detector_trend.go: a pullback to an average within a trend.
use trading_challenge.Prelude.{
  Bool, true, false, not, ◌&&◌, ◌||◌, Option, none, some, ◌>>=◌, List, [], ◌∷◌, ◌++◌, length, last,
  some_of, String, if◌then◌else◌, ℕ, ◌+◌, leb, ℤ, pos, negsuc, lt_ℤ, eq_ℤ, add64, lookup, Float64,
}
use trading_challenge.Funding.Regime.{tail}
use trading_challenge.Scanner.Types.{Signal, Candle, Direction, number, int, short, long}
use trading_challenge.Scanner.Market.{MarketState, tf_15m, clamp, raised, closes_of}
use trading_challenge.Scanner.Indicators.{compute_vwap, ema, FibLevel, fib_retracements}
use trading_challenge.Scanner.Momentum.{SwingPoint, rsi, find_swing_points, detect_trend}

pub record TrendPullbackConfig {ℓ} (F : Type ℓ) : Type ℓ where
  pub fast_ema : ℤ
  pub slow_ema : ℤ
  pub pullback_to_ema_threshold_pct : F
  pub fib_confluence_tolerance_pct : F
  pub rsi_period : ℤ
  pub swing_lookback : ℤ
  pub candle_tf : String

-- One confluence, or none.
abbrev count : Bool → ℕ
count true = 1
count false = 0

-- What the two setups look at.
pub record View {ℓ} (F : Type ℓ) : Type ℓ where
  pub price : F
  pub fast : F
  pub slow : F
  pub trend : ℤ
  pub current_rsi : F
  pub swing_high : F
  pub swing_low : F
  pub vwap : F

module _ {ℓ} {F : Type ℓ} ⦃flt : Float64 F⦄ where
  abbrev pub default_config : TrendPullbackConfig F
  default_config = record {
    fast_ema = pos 21;
    slow_ema = pos 50;
    pullback_to_ema_threshold_pct = flt.lit 3 1;
    fib_confluence_tolerance_pct = flt.lit 5 1;
    rsi_period = pos 14;
    swing_lookback = pos 3;
    candle_tf = tf_15m;
  }

  -- The latest high and the latest low. The points are searched from the last one, and a price of zero counts
  -- as none.
  unfoldable recent_swings : List (SwingPoint F) → F × F
  recent_swings [] = (flt.lit 0 0, flt.lit 0 0)
  recent_swings (s ∷ swings) =
      let (h, l) = recent_swings swings in
      let found = flt.lt (flt.lit 0 0) h && flt.lt (flt.lit 0 0) l in
      if found then (h, l) else (
        if s.is_high && flt.eq h (flt.lit 0 0) then s.price else h,
        if not s.is_high && flt.eq l (flt.lit 0 0) then s.price else l,
      )

  -- The distance of the price from a level, in percent.
  unfoldable pub distance_pct : (price level : F) → F
  distance_pct price level = flt.mul (flt.div (flt.sub price level) level) (flt.lit 100 0)

  abbrev within : (least most v : F) → Bool
  within least most v = flt.le least v && flt.le v most

  -- One of the middle retracements is near the price.
  unfoldable near_fib : TrendPullbackConfig F → View F → Bool
  unfolding distance_pct fib_retracements some_of
  near_fib cfg v =
      let tolerance = cfg.fib_confluence_tolerance_pct in
      if flt.lt (flt.lit 0 0) v.swing_high
        && (flt.lt (flt.lit 0 0) v.swing_low && flt.lt v.swing_low v.swing_high)
      then some_of
          (λ (fib : FibLevel F).
            within (flt.lit 382 3) (flt.lit 786 3) fib.ratio
            && within (flt.neg tolerance) tolerance (distance_pct v.price fib.price))
          (fib_retracements v.swing_high v.swing_low)
      else false

  unfoldable near_vwap : TrendPullbackConfig F → View F → Bool
  unfolding distance_pct
  near_vwap cfg v =
      let t = cfg.pullback_to_ema_threshold_pct in
      flt.lt (flt.lit 0 0) v.vwap && within (flt.neg t) t (distance_pct v.price v.vwap)

  -- The signal of a pullback: its strength and its confluences grow with what agrees with it.
  unfoldable signal_of :
      (format : String)
      → Direction
      → TrendPullbackConfig F
      → MarketState F
      → View F
      → (near fine strong : Bool) → List (Signal F)
  unfolding near_fib near_vwap clamp
  signal_of format direction cfg state v near fine strong =
      let fib = near_fib cfg v in
      let traded = near_vwap cfg v in
      let s₁ = raised (flt.lit 5 1) fib (flt.lit 15 2) in
      let s₂ = raised s₁ fine (flt.lit 1 1) in
      let s₃ = raised s₂ traded (flt.lit 1 1) in
      let s₄ = raised s₃ strong (flt.lit 1 1) in
      let confluences = 1 + count fib + count fine + count traded in
      if near && leb 2 confluences
      then record {
        factor = "TREND_PULLBACK";
        direction = direction;
        strength = clamp s₄ (flt.lit 0 0) (flt.lit 1 0);
        detail = record {
          format = format;
          arguments =
              number v.fast ∷ number v.slow ∷ number v.current_rsi ∷ int (pos confluences) ∷ [];
          suffix = "";
        };
        ts_ms = state.ts_ms;
      }
        ∷ []
      else []

  unfoldable uptrend_pullback : TrendPullbackConfig F → MarketState F → View F → List (Signal F)
  unfolding distance_pct signal_of
  uptrend_pullback cfg state v =
      let t = cfg.pullback_to_ema_threshold_pct in
      let to_fast = distance_pct v.price v.fast in
      let to_slow = distance_pct v.price v.slow in
      let ema_uptrend = flt.lt v.slow v.fast in
      let near =
        within (flt.mul (flt.neg t) (flt.lit 2 0)) t to_fast
        || within (flt.neg t) (flt.mul t (flt.lit 2 0)) to_slow in
      if (eq_ℤ v.trend (pos 1) || ema_uptrend) && not (eq_ℤ v.trend (negsuc 0))
      then signal_of "Uptrend pullback: EMA21=%.0f EMA50=%.0f, RSI %.1f, %d confluences" long cfg
          state v near (within (flt.lit 40 0) (flt.lit 55 0) v.current_rsi)
          (eq_ℤ v.trend (pos 1) && ema_uptrend)
      else []

  unfoldable downtrend_rally : TrendPullbackConfig F → MarketState F → View F → List (Signal F)
  unfolding distance_pct signal_of
  downtrend_rally cfg state v =
      let t = cfg.pullback_to_ema_threshold_pct in
      let to_fast = distance_pct v.price v.fast in
      let to_slow = distance_pct v.price v.slow in
      let ema_downtrend = flt.lt v.fast v.slow in
      let near =
        within (flt.neg t) (flt.mul t (flt.lit 2 0)) to_fast
        || within (flt.mul (flt.neg t) (flt.lit 2 0)) t to_slow in
      if (eq_ℤ v.trend (negsuc 0) || ema_downtrend) && not (eq_ℤ v.trend (pos 1))
      then signal_of "Downtrend rally: EMA21=%.0f EMA50=%.0f, RSI %.1f, %d confluences" short cfg
          state v near (within (flt.lit 45 0) (flt.lit 60 0) v.current_rsi)
          (eq_ℤ v.trend (negsuc 0) && ema_downtrend)
      else []

  -- Both setups; the latest 96 candles are cut out before it is asked whether there are as many.
  unfoldable pub setups :
      TrendPullbackConfig F
      → MarketState F
      → List (Candle F)
      → (fast slow current_rsi : F) → List (SwingPoint F)
      → Option (List (Signal F))
  unfolding recent_swings detect_trend compute_vwap uptrend_pullback downtrend_rally tail
  setups cfg state candles fast slow current_rsi swings =
      let (high, low) = recent_swings swings in
      tail (pos 96) candles >>= λ latest.
      let traded = if lt_ℤ (pos (length candles)) (pos 96) then candles else latest in
      let view : View F = record {
        price = state.price;
        fast = fast;
        slow = slow;
        trend = detect_trend swings;
        current_rsi = current_rsi;
        swing_high = high;
        swing_low = low;
        vwap = (compute_vwap traded (flt.lit 2 0)).vwap;
      } in
      some (uptrend_pullback cfg state view ++ downtrend_rally cfg state view)

  -- The averages, the swing points and the index; without one of them there is no signal.
  unfoldable pub analyse :
      TrendPullbackConfig F → MarketState F → List (Candle F) → Option (List (Signal F))
  unfolding ema last find_swing_points rsi setups
  analyse cfg state candles = elim (last (ema (closes_of candles) cfg.fast_ema)) [
    | none ↦ some []
    | some fast ↦ elim (last (ema (closes_of candles) cfg.slow_ema)) [
      | none ↦ some []
      | some slow ↦ find_swing_points candles cfg.swing_lookback >>= λ swings.
          elim (last (rsi (closes_of candles) cfg.rsi_period)) [
            | none ↦ some []
            | some current_rsi ↦ setups cfg state candles fast slow current_rsi swings
          ]
    ]
  ]

  unfoldable pub detect : TrendPullbackConfig F → MarketState F → Option (List (Signal F))
  unfolding lookup analyse
  detect cfg state = elim (lookup cfg.candle_tf state.candles) [
    | none ↦ some []
    | some candles ↦
        if lt_ℤ (pos (length candles)) (add64 cfg.slow_ema (pos 10))
        then some []
        else if flt.le state.price (flt.lit 0 0)
        then some []
        else analyse cfg state candles
  ]
