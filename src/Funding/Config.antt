-- ===== src/Funding/Config.antt =====
-- internal/funding/config.go: the configuration of the funding engine and the share of a pair.
use trading_challenge.Prelude.{
  ℕ, ◌&&◌, Option, none, some, List, [], ◌∷◌, if◌then◌else◌, ℤ, pos, Float64,
}
use trading_challenge.Arb.Pair.{PairConfig}

pub record AllocationTier {ℓ} (F : Type ℓ) : Type ℓ where
  pub min_diff_bps : F
  pub max_diff_bps : F
  pub allocation_pct : F

pub record Config {ℓ} (F : Type ℓ) : Type ℓ where
  pub pairs : List (PairConfig F)
  pub min_annual_yield_pct : F
  pub exit_threshold_diff_bps : F
  pub negative_exit_cycles : ℤ
  pub max_allocation_pct : F
  pub allocation_by_diff : List (AllocationTier F)
  pub fee_bps_taker : F
  pub eval_interval_s : ℤ
  pub intent_ttl_ms : ℤ
  pub max_slippage_bps : F
  pub cooldown_s : ℤ

module _ {ℓ} {F : Type ℓ} ⦃flt : Float64 F⦄ where
  abbrev tier : (least most share : ℕ) → AllocationTier F
  tier least most share = record {
    min_diff_bps = flt.lit least 0;
    max_diff_bps = flt.lit most 0;
    allocation_pct = flt.lit share 0;
  }

  abbrev pub default_config : Config F
  default_config = record {
    pairs =
        (record { primary = "BTCUSDT"; hedge = "ETHUSDT"; min_correlation = flt.lit 70 2 }) ∷ [];
    min_annual_yield_pct = flt.lit 10 0;
    exit_threshold_diff_bps = flt.lit 5 1;
    negative_exit_cycles = pos 3;
    max_allocation_pct = flt.lit 60 0;
    allocation_by_diff = tier 30 10_000 60 ∷ tier 10 30 40 ∷ tier 0 10 20 ∷ [];
    fee_bps_taker = flt.lit 55 1;
    eval_interval_s = pos 30;
    intent_ttl_ms = pos 10_000;
    max_slippage_bps = flt.lit 5 0;
    cooldown_s = pos 300;
  }

  -- The first tier that holds the differential.
  unfoldable pub find_tier : F → List (AllocationTier F) → Option (AllocationTier F)
  find_tier diff [] = none
  find_tier diff (t ∷ tiers) =
      if flt.le t.min_diff_bps diff && flt.lt diff t.max_diff_bps
      then some t
      else find_tier diff tiers

  unfoldable pub allocation_pct_for_diff : Config F → F → F
  unfolding find_tier
  allocation_pct_for_diff cfg diff = elim (find_tier diff cfg.allocation_by_diff) [
    | some t ↦ t.allocation_pct
    | none ↦ elim cfg.allocation_by_diff [
      | [] ↦ flt.lit 20 0
      | t ∷ _ ↦ if flt.le t.min_diff_bps diff then t.allocation_pct else flt.lit 20 0
    ]
  ]
