-- ===== src/Arb/Stats.antt =====
-- internal/arb/engine.go: the samples of the spread and their statistics over a window.
use trading_challenge.Prelude.{
  ◌-◌, List, [], ◌∷◌, length, select, if◌then◌else◌, not, ltb, ℤ, pos, lt_ℤ, sub64, foldl, Float64,
}

pub record SpreadSample {ℓ} (F : Type ℓ) : Type ℓ where
  pub spread : F
  pub ts_ms : ℤ

pub record RollingStats {ℓ} (F : Type ℓ) : Type ℓ where
  pub mean : F
  pub stddev : F
  pub count : ℤ

module _ {ℓ} {F : Type ℓ} where
  -- The loop over `pruneIdx`: the samples from the first that is not too old.
  unfoldable pub prune : (cutoff : ℤ) → List (SpreadSample F) → List (SpreadSample F)
  prune cutoff [] = []
  prune cutoff (s ∷ samples) =
      let later = prune cutoff samples in if lt_ℤ s.ts_ms cutoff then later else s ∷ samples

  -- The samples that both loops read.
  unfoldable pub in_window : (cutoff : ℤ) → List (SpreadSample F) → List (SpreadSample F)
  unfolding select
  in_window cutoff samples = select (λ s. not (lt_ℤ s.ts_ms cutoff)) samples

module _ {ℓ} {F : Type ℓ} ⦃flt : Float64 F⦄ where
  unfoldable pub compute_rolling_stats :
      List (SpreadSample F) → (now_ms window_ms : ℤ) → RollingStats F
  unfolding in_window
  compute_rolling_stats samples now_ms window_ms =
      let window = in_window (sub64 now_ms window_ms) samples in
      let count = length window in
      let sum = foldl (λ total s. flt.add total s.spread) (flt.lit 0 0) window in
      let mean = flt.div sum (flt.of_int (pos count)) in
      let variance =
        foldl (λ total s. flt.add total (flt.mul (flt.sub s.spread mean) (flt.sub s.spread mean)))
          (flt.lit 0 0) window in
      if ltb count 2
      then record { mean = flt.lit 0 0; stddev = flt.lit 0 0; count = pos count }
      else record {
        mean = mean;
        stddev = flt.sqrt (flt.div variance (flt.of_int (pos (count - 1))));
        count = pos count;
      }
