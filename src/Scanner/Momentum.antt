-- ===== src/Scanner/Momentum.antt =====
-- internal/scanner/indicators.go: the relative strength index, the swing points and the trend.
use trading_challenge.Prelude.{
  Bool, true, false, ◌&&◌, ◌||◌, not, Option, none, some, List, [], ◌∷◌, ◌++◌, map, length, foldl,
  some_of, select, if◌then◌else◌, ltb, ℕ, suc, ◌-◌, ◌+◌, ◌*◌, ℤ, pos, negsuc, take, drop, Float64,
}
use trading_challenge.Scanner.Types.{Candle}

pub record SwingPoint {ℓ} (F : Type ℓ) : Type ℓ where
  pub index : ℕ
  pub price : F
  pub is_high : Bool
  pub ts_ms : ℤ

module _ {ℓ} {F : Type ℓ} ⦃flt : Float64 F⦄ where
  -- The gain and the loss of each later close.
  unfoldable pub moves_from : (last : F) → List F → List (F × F)
  moves_from last [] = []
  moves_from last (close ∷ closes) =
      let change = flt.sub close last in
      let move =
        if flt.lt (flt.lit 0 0) change
        then (change, flt.lit 0 0)
        else (flt.lit 0 0, flt.neg change) in
      move ∷ moves_from close closes

  unfoldable pub rsi_of : (gain loss : F) → F
  rsi_of gain loss =
      if flt.eq loss (flt.lit 0 0)
      then flt.lit 100 0
      else flt.sub (flt.lit 100 0)
          (flt.div (flt.lit 100 0) (flt.add (flt.lit 1 0) (flt.div gain loss)))

  -- Wilder's smoothing of an average over n + 1 items.
  unfoldable pub smooth : (n : ℕ) (average value : F) → F
  smooth n average value =
      flt.div (flt.add (flt.mul average (flt.of_int (pos n))) value) (flt.of_int (pos (suc n)))

  unfoldable pub rsi_from : (n : ℕ) (gain loss : F) → List (F × F) → List F
  unfolding rsi_of smooth
  rsi_from n gain loss [] = []
  rsi_from n gain loss ((up, down) ∷ moves) =
      let g = smooth n gain up in let l = smooth n loss down in rsi_of g l ∷ rsi_from n g l moves

  unfoldable pub mean_of : (n : ℕ) → List F → F
  mean_of n values =
      flt.div (foldl flt.add (flt.lit 0 0) (take (suc n) values)) (flt.of_int (pos (suc n)))

  unfoldable pub rsi : (closes : List F) → (period : ℤ) → List F
  unfolding moves_from rsi_from rsi_of mean_of
  rsi (first ∷ second ∷ rest) (pos (suc n)) =
      let closes = first ∷ second ∷ rest in
      let moves = moves_from first (second ∷ rest) in
      let gain = mean_of n (map (λ (m : F × F). m.0) moves) in
      let loss = mean_of n (map (λ (m : F × F). m.1) moves) in
      map (λ _. flt.lit 50 0) (take (suc n) closes)
      ++ (if ltb (suc n) (length closes)
          then rsi_of gain loss ∷ rsi_from n gain loss (drop (suc n) moves)
          else [])
  rsi _ _ = []

  -- No neighbour is as high, no neighbour is as low.
  unfoldable pub is_swing_high : Candle F → (neighbours : List (Candle F)) → Bool
  unfolding some_of
  is_swing_high c neighbours = not (some_of (λ o. flt.le c.high o.high) neighbours)

  unfoldable pub is_swing_low : Candle F → (neighbours : List (Candle F)) → Bool
  unfolding some_of
  is_swing_low c neighbours = not (some_of (λ o. flt.le o.low c.low) neighbours)

  unfoldable pub points_of :
      (i : ℕ) → Candle F → (neighbours : List (Candle F)) → List (SwingPoint F)
  unfolding is_swing_high is_swing_low
  points_of i c neighbours =
      (if is_swing_high c neighbours
        then record { index = i; price = c.high; is_high = true; ts_ms = c.open_time } ∷ []
        else [])
      ++ (if is_swing_low c neighbours
          then record { index = i; price = c.low; is_high = false; ts_ms = c.open_time } ∷ []
          else [])

  -- The points from index i on; `before` has the earlier candles, the last first.
  unfoldable pub points_from :
      (lookback i : ℕ) (before candles : List (Candle F)) → List (SwingPoint F)
  unfolding points_of
  points_from lookback i before [] = []
  points_from lookback i before (c ∷ after) =
      let rest = points_from lookback (i + 1) (c ∷ before) after in
      if ltb i lookback || ltb (length after) lookback
      then rest
      else points_of i c (take lookback before ++ take lookback after) ++ rest

  -- `none` is the panic of an index below zero.
  unfoldable pub find_swing_points : List (Candle F) → (lookback : ℤ) → Option (List (SwingPoint F))
  unfolding points_from
  find_swing_points candles (pos lookback) =
      if ltb (length candles) (lookback * 2 + 1)
      then some []
      else some (points_from lookback 0 [] candles)
  find_swing_points candles (negsuc n) = none

  -- Four points have two highs and two lows, or less than two of one kind.
  unfoldable pub trend_of : (highs lows : List (SwingPoint F)) → ℤ
  trend_of (h₁ ∷ h₂ ∷ []) (l₁ ∷ l₂ ∷ []) =
      if flt.lt h₁.price h₂.price && flt.lt l₁.price l₂.price
      then pos 1
      else if flt.lt h₂.price h₁.price && flt.lt l₂.price l₁.price
      then negsuc 0
      else pos 0
  trend_of _ _ = pos 0

  unfoldable pub detect_trend : List (SwingPoint F) → ℤ
  unfolding trend_of select
  detect_trend swings =
      let recent = drop (length swings - 4) swings in
      if ltb (length swings) 4
      then pos 0
      else trend_of (select (λ s. s.is_high) recent) (select (λ s. not s.is_high) recent)
