-- ===== src/Scanner/Profile.antt =====
-- internal/scanner/indicators.go: the price with the most volume, and the divergence of price and index.
use trading_challenge.Prelude.{
  ◌&&◌, ◌||◌, Option, none, some, List, [], ◌∷◌, length, foldl, zip, replicate, drop, take, last,
  if◌then◌else◌, ltb, ℕ, suc, ◌-◌, ◌+◌, ◌*◌, ◌/◌, ◌^◌, ℤ, pos, le_ℤ, lt_ℤ, add64, sub64, Float64,
}
use trading_challenge.Scanner.Types.{Candle}
use trading_challenge.Scanner.Market.{bounds_of}

pub data DivergenceType : Type 0 where
  no_divergence bullish_divergence bearish_divergence : DivergenceType

-- A price with the index at its candle.
pub record Extreme {ℓ} (F : Type ℓ) : Type ℓ where
  pub price : F
  pub rsi : F

module _ {ℓ} {F : Type ℓ} ⦃flt : Float64 F⦄ where
  -- The bins from low to high, both included, get the volume more; i is the index of the first.
  unfoldable pub add_between : (low high : ℤ) → F → (i : ℕ) → List F → List F
  add_between low high volume i [] = []
  add_between low high volume i (bin ∷ bins) =
      (if le_ℤ low (pos i) && le_ℤ (pos i) high then flt.add bin volume else bin)
      ∷ add_between low high volume (i + 1) bins

  unfoldable pub spread_volume : (min_price bin_size : F) → (bins : ℤ) → List F → Candle F → List F
  unfolding add_between
  spread_volume min_price bin_size bins histogram c =
      let low_bin = flt.to_int (flt.div (flt.sub c.low min_price) bin_size) in
      let high_bin = flt.to_int (flt.div (flt.sub c.high min_price) bin_size) in
      let low = if lt_ℤ low_bin (pos 0) then pos 0 else low_bin in
      let high = if le_ℤ bins high_bin then sub64 bins (pos 1) else high_bin in
      let spanned = add64 (sub64 high low) (pos 1) in
      add_between low high (flt.div c.volume (flt.of_int spanned)) 0 histogram

  -- The first bin that has the most, from the best so far.
  unfoldable pub fullest_bin : (most : F) → (best i : ℕ) → List F → ℕ
  fullest_bin most best i [] = best
  fullest_bin most best i (bin ∷ bins) =
      let more = flt.lt most bin in
      fullest_bin (if more then bin else most) (if more then i else best) (i + 1) bins

  unfoldable pub poc_of : (min_price bin_size : F) → List F → F
  unfolding fullest_bin
  poc_of min_price bin_size [] = flt.lit 0 0
  poc_of min_price bin_size (bin ∷ histogram) = flt.add min_price (
      flt.mul (flt.add (flt.of_int (pos (fullest_bin bin 0 0 (bin ∷ histogram)))) (flt.lit 5 1))
        bin_size)

  unfoldable pub poc : List (Candle F) → (bins : ℤ) → F
  unfolding bounds_of spread_volume poc_of replicate
  poc (first ∷ rest) (pos (suc n)) =
      let (max_price, min_price) = bounds_of first.high first.low (first ∷ rest) in
      let bin_size = flt.div (flt.sub max_price min_price) (flt.of_int (pos (suc n))) in
      let histogram =
        foldl (spread_volume min_price bin_size (pos (suc n))) (replicate (suc n) (flt.lit 0 0))
          (first ∷ rest) in
      if flt.eq max_price min_price then max_price else poc_of min_price bin_size histogram
  poc _ _ = flt.lit 0 0

  unfoldable pub lowest_from : Extreme F → List (Candle F × F) → Extreme F
  lowest_from best [] = best
  lowest_from best ((c, rsi) ∷ pairs) =
      lowest_from (if flt.lt c.low best.price then record { price = c.low; rsi = rsi } else best)
        pairs

  unfoldable pub highest_from : Extreme F → List (Candle F × F) → Extreme F
  highest_from best [] = best
  highest_from best ((c, rsi) ∷ pairs) =
      highest_from (if flt.lt best.price c.high then record { price = c.high; rsi = rsi } else best)
        pairs

  -- The largest float64, math.MaxFloat64.
  abbrev max_float : F
  max_float = flt.lit (17_976_931_348_623_157 * 10 ^ 292) 0

  -- What the earlier part of the window and the later one say, with the last candle and its index.
  unfoldable pub divergence_of :
      Candle F × F → (earlier later : List (Candle F × F)) → DivergenceType
  unfolding lowest_from highest_from
  divergence_of (c, rsi) earlier later =
      let prior_low = lowest_from (record { price = max_float; rsi = flt.lit 100 0 }) earlier in
      let prior_high = highest_from (record { price = flt.lit 0 0; rsi = flt.lit 0 0 }) earlier in
      let recent_low = lowest_from (record { price = c.low; rsi = rsi }) later in
      let recent_high = highest_from (record { price = c.high; rsi = rsi }) later in
      if flt.lt recent_low.price prior_low.price
        && (flt.lt prior_low.rsi recent_low.rsi && flt.lt recent_low.rsi (flt.lit 40 0))
      then bullish_divergence
      else if flt.lt prior_high.price recent_high.price
          && (flt.lt recent_high.rsi prior_high.rsi && flt.lt (flt.lit 60 0) recent_high.rsi)
      then bearish_divergence
      else no_divergence

  -- `none` is the panic of an index out of range. The lookback is not negative: its one caller asks for 20.
  unfoldable pub detect_rsi_divergence :
      List (Candle F) → (rsi_values : List F) → (lookback : ℕ) → Option DivergenceType
  unfolding zip divergence_of last
  detect_rsi_divergence candles rsi_values lookback =
      let n = length candles in
      let pairs = zip candles rsi_values in
      let mid = n - lookback / 3 in
      let earlier = take (mid - (n - lookback)) (drop (n - lookback) pairs) in
      if ltb n lookback || ltb (length rsi_values) lookback
      then some no_divergence
      else if ltb (length rsi_values) n
      then none
      else elim (last pairs) [
        | none ↦ none
        | some current ↦ some (divergence_of current earlier (drop mid pairs))
      ]
