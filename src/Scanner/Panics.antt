-- ===== src/Scanner/Panics.antt =====
-- internal/scanner/detector_trend.go and engine.go: the pullback detector cuts out the latest 96 candles before
-- it asks whether there are as many.
use trading_challenge.Prelude.{
  true, false, none, some, ◌>>=◌, List, [], ◌∷◌, length, last, String, ltb, zero, suc, ◌<◌, ℤ, pos,
  negsuc, lt_ℤ, le_ℤ, add64, lookup, Float64, ◌≡◌, refl, ap, ◌∙◌, arith, Option-cases, Bool-cases,
  inl, inr, ◌*◌, ◌+◌,
}
use trading_challenge.Funding.Regime.{tail}
use trading_challenge.Scanner.Types.{Candle}
use trading_challenge.Scanner.Market.{MarketState, closes_of}
use trading_challenge.Scanner.Indicators.{ema}
use trading_challenge.Scanner.Momentum.{SwingPoint, rsi, points_from, find_swing_points}
use trading_challenge.Scanner.Engine.{EngineConfig, Engine, Detector, detectors_of}
use trading_challenge.Scanner.Scoring.{Surroundings}
use trading_challenge.Scanner.Scan.{
  run_detectors, scan_symbol, scan_state, scan_signals, is_cooling, is_full,
}
use trading_challenge.Scanner.Detectors.TrendPullback
use trading_challenge.Scanner.Detectors.TrendPullback.{TrendPullbackConfig, setups, analyse}

last-some {ℓ} : {A : Type ℓ} (x : A) (xs : List A) → (v : A) × (last (x ∷ xs) ≡ some v)
unfolding last
last-some x [] = (x, refl)
last-some x (y ∷ xs) = last-some y xs

module _ {ℓ} {F : Type ℓ} ⦃flt : Float64 F⦄ where
  ema-some :
      (v : F) (values : List F) (p : ℤ)
      → le_ℤ (pos 1) p ≡ true
      → (x : F) × (last (ema (v ∷ values) p) ≡ some x)
  unfolding ema
  ema-some v values (pos zero) h = absurd (ground arith)
  ema-some v values (negsuc n) h = absurd (ground arith)
  ema-some v values (pos (suc n)) h =
      let positive : le_ℤ (pos (suc n)) (pos 0) ≡ false = ground arith in
      rw positive (last-some v _)

  rsi-some :
      (v w : F) (values : List F) (p : ℤ)
      → le_ℤ (pos 1) p ≡ true
      → (x : F) × (last (rsi (v ∷ w ∷ values) p) ≡ some x)
  unfolding rsi
  rsi-some v w values (pos zero) h = absurd (ground arith)
  rsi-some v w values (negsuc n) h = absurd (ground arith)
  rsi-some v w values (pos (suc n)) h = last-some (flt.lit 50 0) _

  setups-panics :
      (cfg : TrendPullbackConfig F) (state : MarketState F) (candles : List (Candle F))
      (fast slow current_rsi : F) (swings : List (SwingPoint F))
      → length candles < 96
      → setups cfg state candles fast slow current_rsi swings ≡ none
  unfolding setups tail
  setups-panics cfg state candles fast slow current_rsi swings few = ground arith

  find_swing_points-some :
      (candles : List (Candle F)) (p : ℤ)
      → le_ℤ (pos 0) p ≡ true
      → (swings : List (SwingPoint F)) × (find_swing_points candles p ≡ some swings)
  unfolding find_swing_points
  find_swing_points-some candles (negsuc n) h = absurd (ground arith)
  find_swing_points-some candles (pos k) h = elim (Bool-cases (ltb (length candles) (k * 2 + 1))) [
    | inl few ↦ ([], rw few)
    | inr many ↦ (points_from k 0 [] candles, rw many)
  ]

  -- The periods of the averages and of the index are positive, and the lookback is not negative.
  pub record IsUsable (cfg : TrendPullbackConfig F) : Type 0 where
    pub fast : le_ℤ (pos 1) cfg.fast_ema ≡ true
    pub slow : le_ℤ (pos 1) cfg.slow_ema ≡ true
    pub index : le_ℤ (pos 1) cfg.rsi_period ≡ true
    pub swings : le_ℤ (pos 0) cfg.swing_lookback ≡ true

  analyse-panics :
      (cfg : TrendPullbackConfig F) (state : MarketState F) (c d : Candle F)
      (candles : List (Candle F))
      → IsUsable cfg
      → length (c ∷ d ∷ candles) < 96
      → analyse cfg state (c ∷ d ∷ candles) ≡ none
  unfolding analyse
  analyse-panics cfg state c d candles usable few =
      let closes : List F = closes_of (c ∷ d ∷ candles) in
      let (x, fast) = ema-some c.close (closes_of (d ∷ candles)) cfg.fast_ema usable.fast in
      let (y, slow) = ema-some c.close (closes_of (d ∷ candles)) cfg.slow_ema usable.slow in
      let (swings, found) =
        find_swing_points-some (c ∷ d ∷ candles) cfg.swing_lookback usable.swings in
      let (z, index) = rsi-some c.close d.close (closes_of candles) cfg.rsi_period usable.index in
      rw (fast, slow, found, index, analyse, ◌>>=◌)
        (setups-panics cfg state (c ∷ d ∷ candles) x y z swings few)

  -- With at least two candles, and the number that the slow average asks for, but fewer than 96.
  detect-panics :
      (cfg : TrendPullbackConfig F) (state : MarketState F) (c d : Candle F)
      (candles : List (Candle F))
      → IsUsable cfg
      → lookup cfg.candle_tf state.candles ≡ some (c ∷ d ∷ candles)
      → lt_ℤ (pos (length (c ∷ d ∷ candles))) (add64 cfg.slow_ema (pos 10)) ≡ false
      → length (c ∷ d ∷ candles) < 96
      → flt.le state.price (flt.lit 0 0) ≡ false
      → TrendPullback.detect cfg state ≡ none
  unfolding TrendPullback.detect
  detect-panics cfg state c d candles usable known enough few priced =
      rw (known, enough, priced, TrendPullback.detect)
        (analyse-panics cfg state c d candles usable few)

  -- One of the detectors panics.
  data Panics (state : MarketState F) : List (Detector F) → Type ℓ where
    here :
        (detect : Detector F) (detectors : List (Detector F))
        → detect state ≡ none
        → Panics state (detect ∷ detectors)
    later :
        (detect : Detector F) (detectors : List (Detector F))
        → Panics state detectors
        → Panics state (detect ∷ detectors)

  run_detectors-Panics :
      (state : MarketState F) {detectors : List (Detector F)}
      → Panics state detectors
      → run_detectors detectors state ≡ none
  unfolding run_detectors
  run_detectors-Panics state (here detect detectors panics) = rw (panics, ◌>>=◌)
  run_detectors-Panics state (later detect detectors panics) = elim (Option-cases (detect state)) [
    | inl this ↦ rw (this, ◌>>=◌)
    | inr (signals, known) ↦ rw (known, run_detectors-Panics state panics, ◌>>=◌)
  ]

  detectors_of-Panics :
      (cfg : EngineConfig F) (state : MarketState F)
      → TrendPullback.detect cfg.trend_pullback state ≡ none
      → Panics state (detectors_of cfg)
  unfolding detectors_of
  detectors_of-Panics cfg state h = later _ _ (later _ _ (later _ _ (later _ _ (here _ _ h))))

  -- With the six detectors, a scan that comes to a symbol with a positive price panics if its candles are as
  -- many as the slow average asks for, two at least, but fewer than 96: unless the symbol is cooling or there
  -- is no room for a trade. The periods are positive and the lookback is not negative.
  pub scan_symbol_panics :
      (around : Surroundings) (now : ℤ) (symbol : String) (e : Engine F) (state : MarketState F)
      (c d : Candle F) (candles : List (Candle F))
      → e.detectors ≡ detectors_of e.cfg
      → lookup symbol e.states ≡ some state
      → flt.eq state.price (flt.lit 0 0) ≡ false
      → flt.le state.price (flt.lit 0 0) ≡ false
      → is_cooling symbol now e ≡ false
      → is_full e ≡ false
      → IsUsable e.cfg.trend_pullback
      → lookup e.cfg.trend_pullback.candle_tf state.candles ≡ some (c ∷ d ∷ candles)
      → lt_ℤ (pos (length (c ∷ d ∷ candles))) (add64 e.cfg.trend_pullback.slow_ema (pos 10)) ≡ false
      → length (c ∷ d ∷ candles) < 96
      → scan_symbol around now symbol e ≡ none
  unfolding scan_symbol scan_state
  scan_symbol_panics around now symbol e state c d candles six found nonzero priced rested room
        usable known enough few =
      let panics : run_detectors (detectors_of e.cfg) state ≡ none =
        run_detectors-Panics state {detectors = detectors_of e.cfg} (
          detectors_of-Panics e.cfg state (
            detect-panics e.cfg.trend_pullback state c d candles usable known enough few priced)) in
      rw (found, nonzero, rested, room, scan_state)
        (ap
            (λ ds.
              run_detectors ds state >>= λ signals. scan_signals around symbol state now signals e)
            six
          ∙ rw (panics, ◌>>=◌))
