-- ===== src/Funding/Regime.antt =====
-- internal/funding/regime.go: the regime of the funding rates of each symbol. Rates are float64, counts int.
-- A method returns the new detector; the mutex makes each method atomic.
use trading_challenge.Prelude.{
  ℕ, ◌-◌, Bool, true, false, not, Option, none, some, List, [], ◌∷◌, ◌++◌, length, drop, select,
  some_of, String, Dict, lookup, insert, if◌then◌else◌, leb, ltb, ℤ, pos, negsuc, lt_ℤ, le_ℤ,
  Float64,
}

pub record RegimeConfig {ℓ} (F : Type ℓ) : Type ℓ where
  pub lookback_periods : ℤ
  pub negative_threshold_pct : F
  pub reduce_position_pct : F
  pub exit_all_on_persistent : Bool
  pub persistent_negative_periods : ℤ

pub data Regime : Type 0 where
  bullish neutral bearish persistent : Regime

pub record RateSample {ℓ} (F : Type ℓ) : Type ℓ where
  pub symbol : String
  pub rate : F
  pub ts_ms : ℤ

pub record RegimeDetector {ℓ} (F : Type ℓ) : Type ℓ where
  pub cfg : RegimeConfig F
  pub samples : Dict (List (RateSample F))

-- The last k items of a list, `l[len(l)-k:]`; `none` is the panic of a slice bound below zero or past
-- the end.
unfoldable pub tail {ℓ} : {A : Type ℓ} → ℤ → List A → Option (List A)
tail (pos k) l = if leb k (length l) then some (drop (length l - k) l) else none
tail (negsuc k) l = none

-- The pruning to the lookback window.
unfoldable pub keep_window {ℓ} : {A : Type ℓ} → ℤ → List A → Option (List A)
keep_window lookback l = if lt_ℤ lookback (pos (length l)) then tail lookback l else some l

module _ {ℓ} {F : Type ℓ} where
  unfoldable pub new_detector : RegimeConfig F → RegimeDetector F
  new_detector cfg = record { cfg = cfg; samples = [] }

  -- The samples of a symbol: a missing key is the empty slice.
  unfoldable pub samples_of : String → RegimeDetector F → List (RateSample F)
  samples_of symbol rd = elim (lookup symbol rd.samples) [ none ↦ [] | some l ↦ l ]

  -- `none` is a panic, in the slice that keeps the lookback window.
  unfoldable pub record_rate : String → F → ℤ → RegimeDetector F → Option (RegimeDetector F)
  record_rate symbol rate ts rd =
      let all =
        samples_of symbol rd ++ (record { symbol = symbol; rate = rate; ts_ms = ts } ∷ []) in
      elim (keep_window rd.cfg.lookback_periods all) [
        | none ↦ none
        | some kept ↦ some (record rd { samples = insert symbol kept rd.samples })
      ]

module _ {ℓ} {F : Type ℓ} ⦃flt : Float64 F⦄ where
  unfoldable pub default_regime_config : RegimeConfig F
  default_regime_config = record {
    lookback_periods = pos 90;
    negative_threshold_pct = flt.lit 60 0;
    reduce_position_pct = flt.lit 25 0;
    exit_all_on_persistent = true;
    persistent_negative_periods = pos 12;
  }

  -- The first loop: no sample is at or above zero.
  unfoldable pub all_negative : List (RateSample F) → Bool
  all_negative l = not (some_of (λ s. flt.le (flt.lit 0 0) s.rate) l)

  unfoldable pub negative_count : List (RateSample F) → ℕ
  negative_count l = length (select (λ s. flt.lt s.rate (flt.lit 0 0)) l)

  -- The shares of the negative rates and of the others.
  unfoldable pub share_regime : RegimeConfig F → List (RateSample F) → Regime
  share_regime cfg l =
      let neg_pct =
        flt.mul (flt.div (flt.of_int (pos (negative_count l))) (flt.of_int (pos (length l))))
          (flt.lit 100 0) in
      if flt.le cfg.negative_threshold_pct neg_pct
      then bearish
      else if flt.le cfg.negative_threshold_pct (flt.sub (flt.lit 100 0) neg_pct)
      then bullish
      else neutral

  -- `none` is a panic, in the slice of the latest rates.
  unfoldable pub regime_of : RegimeConfig F → List (RateSample F) → Option Regime
  regime_of cfg l =
      if ltb (length l) 3
      then some neutral
      else if le_ℤ cfg.persistent_negative_periods (pos (length l))
      then elim (tail cfg.persistent_negative_periods l) [
        | none ↦ none
        | some latest ↦ if all_negative latest then some persistent else some (share_regime cfg l)
      ]
      else some (share_regime cfg l)

  unfoldable pub detect_regime : String → RegimeDetector F → Option Regime
  detect_regime symbol rd = elim (lookup symbol rd.samples) [
    | none ↦ some neutral
    | some l ↦ regime_of rd.cfg l
  ]

  unfoldable pub scale_of : RegimeConfig F → Regime → F
  scale_of cfg bullish = flt.lit 1 0
  scale_of cfg neutral = flt.lit 75 2
  scale_of cfg bearish = flt.div cfg.reduce_position_pct (flt.lit 100 0)
  scale_of cfg persistent =
      if cfg.exit_all_on_persistent
      then flt.lit 0 0
      else flt.div cfg.reduce_position_pct (flt.lit 100 0)

  unfoldable pub position_scale_factor : String → RegimeDetector F → Option F
  position_scale_factor symbol rd = elim (detect_regime symbol rd) [
    | none ↦ none
    | some r ↦ some (scale_of rd.cfg r)
  ]

  unfoldable pub should_exit_all : String → RegimeDetector F → Option Bool
  should_exit_all symbol rd = elim (detect_regime symbol rd) [
    | none ↦ none
    | some r ↦ elim r [ persistent ↦ some rd.cfg.exit_all_on_persistent | _ ↦ some false ]
  ]
