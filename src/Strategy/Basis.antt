-- ===== src/Strategy/Basis.antt =====
-- internal/strategy/basis.go: the rolling statistics of a premium or a spread, by symbol or by pair.
use trading_challenge.Prelude.{
  ◌-◌, ◌||◌, Option, none, some, List, [], ◌∷◌, ◌++◌, length, foldl, String, if◌then◌else◌, ltb,
  ◌==◌, ℤ, pos, lt_ℤ, Dict, lookup, insert, Float64,
}
use trading_challenge.Arb.Pair.{pair_id}
use trading_challenge.Funding.Regime.{keep_window}
use trading_challenge.Strategy.Types.{MarketCondition}

pub record BasisConfig : Type 0 where
  pub window_size : ℤ
  pub min_samples : ℤ

abbrev pub default_basis_config : BasisConfig
default_basis_config = record { window_size = pos 720; min_samples = pos 60 }

pub record BasisSample {ℓ} (F : Type ℓ) : Type ℓ where
  pub basis : F
  pub ts_ms : ℤ

pub record BasisTracker {ℓ} (F : Type ℓ) : Type ℓ where
  pub cfg : BasisConfig
  pub samples : Dict (List (BasisSample F))

module _ {ℓ} {F : Type ℓ} where
  abbrev pub new_basis_tracker : BasisConfig → BasisTracker F
  new_basis_tracker cfg = record { cfg = cfg; samples = [] }

  -- A missing key is the empty slice.
  unfoldable pub samples_of : String → BasisTracker F → List (BasisSample F)
  unfolding lookup
  samples_of key bt = elim (lookup key bt.samples) [ none ↦ [] | some l ↦ l ]

  -- The sample is added and the window cut; `none` is the panic of a slice out of range.
  unfoldable pub add_sample : String → F → ℤ → BasisTracker F → Option (BasisTracker F)
  unfolding samples_of keep_window insert
  add_sample key value ts bt =
      elim (keep_window bt.cfg.window_size
        (samples_of key bt ++ (record { basis = value; ts_ms = ts } ∷ []))) [
          | none ↦ none
          | some kept ↦ some (record bt { samples = insert key kept bt.samples })
        ]

module _ {ℓ} {F : Type ℓ} ⦃flt : Float64 F⦄ where
  unfoldable pub record_premium :
      String → (index_price perp_price : F) → ℤ → BasisTracker F → Option (BasisTracker F)
  unfolding add_sample
  record_premium symbol index_price perp_price ts bt =
      if flt.le index_price (flt.lit 0 0)
      then some bt
      else add_sample symbol (flt.div (flt.sub perp_price index_price) index_price) ts bt

  unfoldable pub record_pair_spread :
      (primary hedge : String) (primary_price hedge_price : F)
      → ℤ
      → BasisTracker F
      → Option (BasisTracker F)
  unfolding add_sample pair_id
  record_pair_spread primary hedge primary_price hedge_price ts bt =
      if flt.le primary_price (flt.lit 0 0) || flt.le hedge_price (flt.lit 0 0)
      then some bt
      else add_sample (pair_id primary hedge) (flt.log (flt.div primary_price hedge_price)) ts bt

  -- The mean, the standard deviation and the number of the samples.
  unfoldable pub stats_of : List (BasisSample F) → F × F × ℤ
  stats_of samples =
      let count = length samples in
      let sum = foldl (λ total s. flt.add total s.basis) (flt.lit 0 0) samples in
      let mean = flt.div sum (flt.of_int (pos count)) in
      let squares =
        foldl (λ total s. flt.add total (flt.mul (flt.sub s.basis mean) (flt.sub s.basis mean)))
          (flt.lit 0 0) samples in
      if count == 0
      then (flt.lit 0 0, flt.lit 0 0, pos 0)
      else if ltb count 2
      then (mean, flt.lit 0 0, pos count)
      else (mean, flt.sqrt (flt.div squares (flt.of_int (pos (count - 1)))), pos count)

  unfoldable pub stats : String → BasisTracker F → F × F × ℤ
  unfolding samples_of stats_of
  stats key bt = stats_of (samples_of key bt)

  -- The last sample.
  unfoldable pub last_of : List (BasisSample F) → Option F
  last_of [] = none
  last_of (s ∷ samples) = elim (last_of samples) [ none ↦ some s.basis | some v ↦ some v ]

  unfoldable pub current_value : String → BasisTracker F → Option F
  unfolding samples_of last_of
  current_value key bt = last_of (samples_of key bt)

  unfoldable pub z_score : String → BasisTracker F → F
  unfolding stats current_value
  z_score key bt =
      let (mean, stddev, count) = stats key bt in
      if lt_ℤ count bt.cfg.min_samples || flt.lt stddev (flt.lit 1 10)
      then flt.lit 0 0
      else (elim (current_value key bt) as (λ _. F) [
        | none ↦ flt.lit 0 0
        | some current ↦ flt.div (flt.sub current mean) stddev
      ])

  unfoldable pub pair_spread_z_score : (primary hedge : String) → BasisTracker F → F
  unfolding pair_id z_score
  pair_spread_z_score primary hedge bt = z_score (pair_id primary hedge) bt

  unfoldable pair_spread_stats : (primary hedge : String) → BasisTracker F → F × F × ℤ
  unfolding pair_id stats
  pair_spread_stats primary hedge bt = stats (pair_id primary hedge) bt

  unfoldable condition :
      String
      → (index_price perp_price funding_rate : F) → String
      → ℤ
      → BasisTracker F
      → MarketCondition F
  unfolding stats z_score
  condition symbol index_price perp_price funding_rate regime ts bt =
      let (mean, stddev, count) = stats symbol bt in
      record {
        symbol = symbol;
        perp_price = perp_price;
        index_price = index_price;
        funding_rate = funding_rate;
        perp_premium =
            if flt.lt (flt.lit 0 0) index_price
            then flt.div (flt.sub perp_price index_price) index_price
            else flt.lit 0 0;
        basis_z_score = z_score symbol bt;
        basis_mean = mean;
        basis_std_dev = stddev;
        regime = regime;
        ts_ms = ts;
      }
