-- ===== src/Scanner/Detectors/MultiTf.antt =====
-- internal/scanner/detector_mtf.go: the trend of a higher timeframe and of a lower one.
use trading_challenge.Prelude.{
  Bool, true, false, not, ◌&&◌, ◌||◌, Option, none, some, ◌>>=◌, List, [], ◌∷◌, ◌++◌, length, last,
  String, if◌then◌else◌, ℤ, pos, negsuc, lt_ℤ, le_ℤ, eq_ℤ, lookup, Float64,
}
use trading_challenge.Scanner.Types.{Signal, Candle, Detail, number, int, words, short, long}
use trading_challenge.Scanner.Market.{
  MarketState, tf_15m, tf_4h, is_bullish, clamp, raised, closes_of, last_or,
}
use trading_challenge.Scanner.Indicators.{ema}
use trading_challenge.Scanner.Momentum.{rsi, find_swing_points, detect_trend}

pub record MultiTfConfig : Type 0 where
  pub higher_tf : String
  pub lower_tf : String
  pub swing_lookback : ℤ
  pub fast_ema : ℤ
  pub slow_ema : ℤ
  pub rsi_period : ℤ
  pub min_htf_candles : ℤ
  pub min_ltf_candles : ℤ

abbrev pub default_config : MultiTfConfig
default_config = record {
  higher_tf = tf_4h;
  lower_tf = tf_15m;
  swing_lookback = pos 3;
  fast_ema = pos 21;
  slow_ema = pos 50;
  rsi_period = pos 14;
  min_htf_candles = pos 30;
  min_ltf_candles = pos 50;
}

abbrev holds : Option Bool → Bool
holds answer = elim answer [ none ↦ false | some b ↦ b ]

-- The bias of the trend and of the averages; they can be in conflict.
unfoldable pub htf_bias : (trend ema_bias : ℤ) → ℤ
htf_bias trend ema_bias =
    let up = eq_ℤ trend (pos 1) || eq_ℤ ema_bias (pos 1) in
    if eq_ℤ trend (negsuc 0) || eq_ℤ ema_bias (negsuc 0)
    then (if up then pos 0 else negsuc 0)
    else if up
    then pos 1
    else pos 0

module _ {ℓ} {F : Type ℓ} ⦃flt : Float64 F⦄ where
  -- The fast average against the slow one at the last candle, if both are there.
  unfoldable pub compare_emas :
      (test : F → F → Bool) → MultiTfConfig → List (Candle F) → Option Bool
  unfolding ema last
  compare_emas test cfg candles = last (ema (closes_of candles) cfg.fast_ema) >>= λ fast.
      last (ema (closes_of candles) cfg.slow_ema) >>= λ slow. some (test fast slow)

  unfoldable pub ema_bias : MultiTfConfig → List (Candle F) → ℤ
  unfolding compare_emas
  ema_bias cfg candles = elim (compare_emas (λ fast slow. flt.lt slow fast) cfg candles) [
    | none ↦ pos 0
    | some true ↦ pos 1
    | some false ↦ negsuc 0
  ]

  abbrev last_candle : (Candle F → Bool) → List (Candle F) → Bool
  last_candle test candles = elim (last candles) [ none ↦ false | some c ↦ test c ]

  abbrev detail_of : (format : String) → MultiTfConfig → (trend : ℤ) → (current_rsi : F) → Detail F
  detail_of format cfg trend current_rsi = record {
    format = format;
    arguments = words cfg.higher_tf ∷ words cfg.lower_tf ∷ int trend ∷ number current_rsi ∷ [];
    suffix = "";
  }

  unfoldable bullish_signal :
      MultiTfConfig
      → MarketState F
      → (bias trend htf_ema ltf_trend : ℤ) → (current_rsi : F) → List (Candle F)
      → List (Signal F)
  unfolding compare_emas is_bullish clamp last
  bullish_signal cfg state bias trend htf_ema ltf_trend current_rsi ltf =
      let s₁ = raised (flt.lit 4 1) (eq_ℤ trend (pos 1) && eq_ℤ htf_ema (pos 1)) (flt.lit 15 2) in
      let s₂ = raised s₁ (eq_ℤ ltf_trend (pos 1)) (flt.lit 15 2) in
      let s₃ =
        raised s₂ (holds (compare_emas (λ fast slow. flt.lt slow fast) cfg ltf)) (flt.lit 1 1) in
      let s₄ =
        raised s₃ (flt.le (flt.lit 40 0) current_rsi && flt.le current_rsi (flt.lit 65 0))
          (flt.lit 1 1) in
      let s₅ = raised s₄ (last_candle is_bullish ltf) (flt.lit 5 2) in
      if eq_ℤ bias (pos 1) && le_ℤ (pos 0) ltf_trend
      then record {
        factor = "MULTI_TF_ALIGNMENT";
        direction = long;
        strength = clamp s₅ (flt.lit 0 0) (flt.lit 1 0);
        detail =
            detail_of "HTF(%s) bullish, LTF(%s) aligned (trend=%d), RSI %.1f" cfg ltf_trend
              current_rsi;
        ts_ms = state.ts_ms;
      }
        ∷ []
      else []

  unfoldable bearish_signal :
      MultiTfConfig
      → MarketState F
      → (bias trend htf_ema ltf_trend : ℤ) → (current_rsi : F) → List (Candle F)
      → List (Signal F)
  unfolding compare_emas is_bullish clamp last
  bearish_signal cfg state bias trend htf_ema ltf_trend current_rsi ltf =
      let s₁ =
        raised (flt.lit 4 1) (eq_ℤ trend (negsuc 0) && eq_ℤ htf_ema (negsuc 0)) (flt.lit 15 2) in
      let s₂ = raised s₁ (eq_ℤ ltf_trend (negsuc 0)) (flt.lit 15 2) in
      let s₃ =
        raised s₂ (holds (compare_emas (λ fast slow. flt.lt fast slow) cfg ltf)) (flt.lit 1 1) in
      let s₄ =
        raised s₃ (flt.le (flt.lit 35 0) current_rsi && flt.le current_rsi (flt.lit 60 0))
          (flt.lit 1 1) in
      let s₅ = raised s₄ (last_candle (λ c. not (is_bullish c)) ltf) (flt.lit 5 2) in
      if eq_ℤ bias (negsuc 0) && le_ℤ ltf_trend (pos 0)
      then record {
        factor = "MULTI_TF_ALIGNMENT";
        direction = short;
        strength = clamp s₅ (flt.lit 0 0) (flt.lit 1 0);
        detail =
            detail_of "HTF(%s) bearish, LTF(%s) aligned (trend=%d), RSI %.1f" cfg ltf_trend
              current_rsi;
        ts_ms = state.ts_ms;
      }
        ∷ []
      else []

  unfoldable align :
      MultiTfConfig → MarketState F → (htf ltf : List (Candle F)) → Option (List (Signal F))
  unfolding find_swing_points detect_trend ema_bias htf_bias bullish_signal bearish_signal rsi last
  align cfg state htf ltf = find_swing_points htf cfg.swing_lookback >>= λ htf_swings.
      let trend = detect_trend htf_swings in
      let htf_ema = ema_bias cfg htf in
      let bias = htf_bias trend htf_ema in
      if eq_ℤ bias (pos 0)
      then some []
      else find_swing_points ltf cfg.swing_lookback >>= λ ltf_swings.
          let ltf_trend = detect_trend ltf_swings in
          let current_rsi = last_or (flt.lit 50 0) (rsi (closes_of ltf) cfg.rsi_period) in
          some (
            bullish_signal cfg state bias trend htf_ema ltf_trend current_rsi ltf
            ++ bearish_signal cfg state bias trend htf_ema ltf_trend current_rsi ltf)

  unfoldable pub detect : MultiTfConfig → MarketState F → Option (List (Signal F))
  unfolding lookup align
  detect cfg state = elim (lookup cfg.higher_tf state.candles) [
    | none ↦ some []
    | some htf ↦ elim (lookup cfg.lower_tf state.candles) [
      | none ↦ some []
      | some ltf ↦
          if lt_ℤ (pos (length htf)) cfg.min_htf_candles
            || lt_ℤ (pos (length ltf)) cfg.min_ltf_candles
          then some []
          else align cfg state htf ltf
    ]
  ]
