-- ===== src/Scanner/Indicators.antt =====
-- internal/scanner/indicators.go: the averages, the volume-weighted price, the true range and the retracements.
-- A nil slice is the empty list, and `none` the panic of an index out of range.
use trading_challenge.Prelude.{
  Option, none, some, List, [], ◌∷◌, ◌++◌, map, length, foldl, if◌then◌else◌, ltb, ℕ, zero, suc,
  ◌+◌, ℤ, pos, negsuc, le_ℤ, add64, sub64, take, drop, Float64,
}
use trading_challenge.Scanner.Types.{Candle}

pub record VwapResult {ℓ} (F : Type ℓ) : Type ℓ where
  pub vwap : F
  pub upper_band : F
  pub lower_band : F
  pub std_dev : F

pub record FibLevel {ℓ} (F : Type ℓ) : Type ℓ where
  pub ratio : F
  pub price : F

module _ {ℓ} {F : Type ℓ} ⦃flt : Float64 F⦄ where
  -- The averages of the later values, from the average before them.
  unfoldable pub ema_from : (k last : F) → List F → List F
  ema_from k last [] = []
  ema_from k last (value ∷ values) =
      let now = flt.add (flt.mul value k) (flt.mul last (flt.sub (flt.lit 1 0) k)) in
      now ∷ ema_from k now values

  unfoldable pub ema : List F → (period : ℤ) → List F
  unfolding ema_from
  ema [] period = []
  ema (first ∷ values) period =
      if le_ℤ period (pos 0)
      then []
      else first ∷ ema_from (flt.div (flt.lit 2 0) (flt.of_int (add64 period (pos 1)))) first values

  -- The averages from index i on: `sum` is over the window before it, `leaving` what drops out of the window
  -- once it is full.
  unfoldable pub sma_from : (period i : ℕ) (sum : F) (leaving values : List F) → List F
  sma_from period i sum leaving [] = []
  sma_from period i sum [] (value ∷ values) = []
  sma_from period i sum (oldest ∷ leaving) (value ∷ values) =
      let added = flt.add sum value in
      let cut = flt.sub added oldest in
      if ltb i period
      then flt.div added (flt.of_int (pos (i + 1)))
        ∷ sma_from period (i + 1) added (oldest ∷ leaving) values
      else flt.div cut (flt.of_int (pos period)) ∷ sma_from period (i + 1) cut leaving values

  unfoldable pub sma : List F → (period : ℤ) → List F
  unfolding sma_from
  sma values (pos zero) = []
  sma values (pos (suc n)) = sma_from (suc n) 0 (flt.lit 0 0) values values
  sma values (negsuc n) = []

  unfoldable pub typical_price : Candle F → F
  typical_price c = flt.div (flt.add (flt.add c.high c.low) c.close) (flt.lit 3 0)

  abbrev no_vwap : VwapResult F
  no_vwap = record {
    vwap = flt.lit 0 0;
    upper_band = flt.lit 0 0;
    lower_band = flt.lit 0 0;
    std_dev = flt.lit 0 0;
  }

  unfoldable pub compute_vwap : List (Candle F) → (sd_mult : F) → VwapResult F
  unfolding typical_price
  compute_vwap [] sd_mult = no_vwap
  compute_vwap (first ∷ rest) sd_mult =
      let candles = first ∷ rest in
      let traded =
        foldl (λ total c. flt.add total (flt.mul (typical_price c) c.volume)) (flt.lit 0 0)
          candles in
      let volume = foldl (λ total c. flt.add total c.volume) (flt.lit 0 0) candles in
      let vwap = flt.div traded volume in
      let squares =
        foldl
          (λ total c.
            let dev = flt.sub (typical_price c) vwap in
            flt.add total (flt.mul (flt.mul dev dev) c.volume))
          (flt.lit 0 0) candles in
      let stddev = flt.sqrt (flt.div squares volume) in
      if flt.eq volume (flt.lit 0 0) then no_vwap else record {
        vwap = vwap;
        upper_band = flt.add vwap (flt.mul sd_mult stddev);
        lower_band = flt.sub vwap (flt.mul sd_mult stddev);
        std_dev = stddev;
      }

  -- The true ranges of the later candles, with the close before each.
  unfoldable pub true_ranges : (last_close : F) → List (Candle F) → List F
  true_ranges last_close [] = []
  true_ranges last_close (c ∷ candles) =
      let hl = flt.sub c.high c.low in
      let hc = flt.abs (flt.sub c.high last_close) in
      let lc = flt.abs (flt.sub c.low last_close) in
      flt.max hl (flt.max hc lc) ∷ true_ranges c.close candles

  unfoldable pub wilder_from : (period : ℤ) (last : F) → List F → List F
  wilder_from period last [] = []
  wilder_from period last (tr ∷ ranges) =
      let now =
        flt.div (flt.add (flt.mul last (flt.of_int (sub64 period (pos 1)))) tr)
          (flt.of_int period) in
      now ∷ wilder_from period now ranges

  -- The first items are zeros, as many as one less than the period; item period - 1 does not exist when
  -- there are fewer candles than the period.
  unfoldable pub atr_of : (n : ℕ) → List F → Option (List F)
  unfolding wilder_from
  atr_of n ranges =
      let sum = foldl flt.add (flt.lit 0 0) (take (suc n) ranges) in
      let seed = flt.div sum (flt.of_int (pos (suc n))) in
      if ltb n (length ranges)
      then some (
          map (λ _. flt.lit 0 0) (take n ranges)
          ++ (seed ∷ wilder_from (pos (suc n)) seed (drop (suc n) ranges)))
      else none

  unfoldable pub atr : List (Candle F) → (period : ℤ) → Option (List F)
  unfolding true_ranges atr_of
  atr (first ∷ second ∷ rest) (pos (suc n)) =
      atr_of n (flt.sub first.high first.low ∷ true_ranges first.close (second ∷ rest))
  atr _ _ = some []

  unfoldable pub fib_retracements : (swing_high swing_low : F) → List (FibLevel F)
  fib_retracements swing_high swing_low =
      let diff = flt.sub swing_high swing_low in
      map (λ r. record { ratio = r; price = flt.sub swing_high (flt.mul diff r) })
        (flt.lit 0 0
          ∷ flt.lit 236 3
          ∷ flt.lit 382 3
          ∷ flt.lit 5 1
          ∷ flt.lit 618 3
          ∷ flt.lit 786 3
          ∷ flt.lit 1 0
          ∷ [])
