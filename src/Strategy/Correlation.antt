-- ===== src/Strategy/Correlation.antt =====
-- internal/strategy/correlation.go: the correlation and the beta of the returns of a pair.
use trading_challenge.Prelude.{
  Bool, true, false, ◌||◌, Option, none, some, List, [], ◌∷◌, ◌++◌, length, foldl, String,
  if◌then◌else◌, ltb, ℤ, pos, lt_ℤ, le_ℤ, Dict, lookup, insert, Float64,
}
use trading_challenge.Arb.Pair.{pair_id}
use trading_challenge.Funding.Regime.{keep_window}

pub record ReturnSample {ℓ} (F : Type ℓ) : Type ℓ where
  pub primary_return : F
  pub hedge_return : F
  pub ts_ms : ℤ

pub record CorrelationTracker {ℓ} (F : Type ℓ) : Type ℓ where
  pub window : ℤ
  pub samples : Dict (List (ReturnSample F))
  pub last_prices : Dict (F × F)

module _ {ℓ} {F : Type ℓ} where
  unfoldable pub new_correlation_tracker : ℤ → CorrelationTracker F
  new_correlation_tracker window_size = record {
    window = if lt_ℤ window_size (pos 10) then pos 10 else window_size;
    samples = [];
    last_prices = [];
  }

  unfoldable pub samples_of : String → CorrelationTracker F → List (ReturnSample F)
  unfolding lookup
  samples_of pid ct = elim (lookup pid ct.samples) [ none ↦ [] | some l ↦ l ]

  unfoldable sample_count : (primary hedge : String) → CorrelationTracker F → ℤ
  unfolding samples_of pair_id
  sample_count primary hedge ct = pos (length (samples_of (pair_id primary hedge) ct))

  unfoldable is_reliable : (primary hedge : String) → ℤ → CorrelationTracker F → Bool
  unfolding sample_count
  is_reliable primary hedge min_samples ct = le_ℤ min_samples (sample_count primary hedge ct)

module _ {ℓ} {F : Type ℓ} ⦃flt : Float64 F⦄ where
  -- The returns since the prices before, if there were any.
  unfoldable pub returns :
      Option (F × F) → (primary_price hedge_price : F) → ℤ → Option (ReturnSample F)
  returns none pp hp ts = none
  returns (some (p, h)) pp hp ts =
      if flt.le p (flt.lit 0 0) || flt.le h (flt.lit 0 0)
      then none
      else some (record {
        primary_return = flt.div (flt.sub pp p) p;
        hedge_return = flt.div (flt.sub hp h) h;
        ts_ms = ts;
      })

  -- `none` is the panic of a slice out of range.
  unfoldable pub record_prices :
      (primary hedge : String) (primary_price hedge_price : F)
      → ℤ
      → CorrelationTracker F
      → Option (CorrelationTracker F)
  unfolding pair_id returns samples_of keep_window lookup insert
  record_prices primary hedge primary_price hedge_price ts ct =
      let pid = pair_id primary hedge in
      let ct₁ = record ct {
        last_prices = insert pid (primary_price, hedge_price) ct.last_prices;
      } in
      elim (flt.le primary_price (flt.lit 0 0) || flt.le hedge_price (flt.lit 0 0)) [
        | true ↦ some ct
        | false ↦ elim (returns (lookup pid ct.last_prices) primary_price hedge_price ts) [
          | none ↦ some ct₁
          | some s ↦ elim (keep_window ct.window (samples_of pid ct ++ (s ∷ []))) [
            | none ↦ none
            | some kept ↦ some (record ct₁ { samples = insert pid kept ct.samples })
          ]
        ]
      ]

  -- A sum over the samples.
  unfoldable pub sum_of : (ReturnSample F → F) → List (ReturnSample F) → F
  sum_of f samples = foldl (λ total s. flt.add total (f s)) (flt.lit 0 0) samples

  -- The covariance and the variance of the primary, times the square of the number.
  unfoldable pub covariance : List (ReturnSample F) → F
  unfolding sum_of
  covariance samples =
      flt.sub
        (flt.mul (flt.of_int (pos (length samples)))
          (sum_of (λ s. flt.mul s.primary_return s.hedge_return) samples))
        (flt.mul (sum_of (λ s. s.primary_return) samples) (sum_of (λ s. s.hedge_return) samples))

  unfoldable pub variance : (ReturnSample F → F) → List (ReturnSample F) → F
  unfolding sum_of
  variance f samples =
      flt.sub
        (flt.mul (flt.of_int (pos (length samples))) (sum_of (λ s. flt.mul (f s) (f s)) samples))
        (flt.mul (sum_of f samples) (sum_of f samples))

  unfoldable pub correlation_of : List (ReturnSample F) → F
  unfolding covariance variance
  correlation_of samples =
      let den = flt.sqrt (
        flt.mul (variance (λ s. s.primary_return) samples)
          (variance (λ s. s.hedge_return) samples)) in
      if ltb (length samples) 10
      then flt.lit 0 0
      else if flt.lt den (flt.lit 1 12)
      then flt.lit 0 0
      else flt.div (covariance samples) den

  unfoldable pub beta_of : List (ReturnSample F) → F
  unfolding covariance variance
  beta_of samples =
      let den = variance (λ s. s.primary_return) samples in
      if ltb (length samples) 10
      then flt.lit 1 0
      else if flt.lt (flt.abs den) (flt.lit 1 12)
      then flt.lit 1 0
      else flt.div (covariance samples) den

  unfoldable pub correlation : (primary hedge : String) → CorrelationTracker F → F
  unfolding correlation_of samples_of pair_id
  correlation primary hedge ct = correlation_of (samples_of (pair_id primary hedge) ct)

  unfoldable pub beta : (primary hedge : String) → CorrelationTracker F → F
  unfolding beta_of samples_of pair_id
  beta primary hedge ct = beta_of (samples_of (pair_id primary hedge) ct)
