-- ===== src/Funding/Streak.antt =====
-- What a streak of negative rates leads to.

use trading_challenge.Prelude.{
  ℕ, suc, ◌+◌, ◌-◌, ◌≤◌, ◌≡◌, refl, sym, ◌∙◌, ap, inl, inr, true, false, some, List, [], ◌∷◌, ◌++◌,
  map, length, length-append, length-drop, drop, select, some_of, All, arith, String, str_eq,
  lookup, ltb, pos, le_ℤ, Float64, Bool-cases, Option-cases,
}
use trading_challenge.Funding.Regime.{
  RegimeConfig, neutral, persistent, RateSample, RegimeDetector, tail, new_detector, samples_of,
  all_negative, regime_of, detect_regime, should_exit_all,
}
use trading_challenge.Funding.Window.{
  last, last_of_append, tail-last, drop-drop, Rate, sample, record_rates, samples_for,
  record_rates_window,
}

module _ {ℓ} {A : Type ℓ} where
  -- The last p of the last k.
  last_of_last : (p k : ℕ) (l : List A) → p ≤ k → last p (last k l) ≡ last p l
  last_of_last p k l h =
      let n = length l - k in
      let both : n + (length (drop n l) - p) ≡ length l - p = omega (arith, length-drop n l) in
      drop-drop (length (drop n l) - p) n l ∙ ap (λ i. drop i l) both

module _ {ℓ} {F : Type ℓ} where
  samples_for-append :
      (symbol : String) (before streak : List (Rate F))
      → samples_for symbol (before ++ streak)
        ≡ samples_for symbol before ++ samples_for symbol streak
  unfolding select
  samples_for-append symbol [] streak = refl
  samples_for-append symbol (r ∷ before) streak = elim (Bool-cases (str_eq r.0 symbol)) [
    | inl same ↦ rw same (ap (λ l. sample r ∷ l) (samples_for-append symbol before streak))
    | inr other ↦ rw other (samples_for-append symbol before streak)
  ]

  samples_for_same :
      (symbol : String) (streak : List (Rate F))
      → All (λ r. str_eq r.0 symbol ≡ true) streak
      → samples_for symbol streak ≡ map sample streak
  unfolding select
  samples_for_same symbol [] a = refl
  samples_for_same symbol (r ∷ streak) (e, a) =
      rw e (ap (λ l. sample r ∷ l) (samples_for_same symbol streak a))

  length-samples : (streak : List (Rate F)) → length (map sample streak) ≡ length streak
  length-samples [] = refl
  length-samples (r ∷ streak) = ap suc (length-samples streak)

module _ {ℓ} {F : Type ℓ} ⦃flt : Float64 F⦄ where
  streak_negative :
      (streak : List (Rate F))
      → All (λ r. flt.le (flt.lit 0 0) r.1 ≡ false) streak
      → all_negative (map sample streak) ≡ true
  unfolding all_negative some_of
  streak_negative [] a = refl
  streak_negative (r ∷ streak) (n, a) = rw n (streak_negative streak a)

  regime_persistent :
      (cfg : RegimeConfig F) (p : ℕ) (l latest : List (RateSample F))
      → cfg.persistent_negative_periods ≡ pos p
      → 3 ≤ p
      → p ≤ length l
      → last p l ≡ latest
      → all_negative latest ≡ true
      → regime_of cfg l ≡ some persistent
  unfolding regime_of
  regime_persistent cfg p l latest e three long cut neg =
      let found : tail cfg.persistent_negative_periods l ≡ some latest =
        ap (λ x. tail x l) e ∙ tail-last p l long ∙ ap some cut in
      let enough : ltb (length l) 3 ≡ false = ground arith in
      let reached : le_ℤ cfg.persistent_negative_periods (pos (length l)) ≡ true =
        rw e (ground arith) in
      rw (enough, reached, found, neg) refl

  -- A symbol without an entry is one without samples.
  detect_samples :
      (symbol : String) (rd : RegimeDetector F)
      → detect_regime symbol rd ≡ regime_of rd.cfg (samples_of symbol rd)
  unfolding samples_of detect_regime regime_of
  detect_samples symbol rd = elim (Option-cases (lookup symbol rd.samples)) [
    | inl e ↦
        let none_seen : samples_of symbol rd ≡ [] = rw (e, samples_of) refl in
        let unknown : detect_regime symbol rd ≡ some neutral = rw (e, detect_regime) refl in
        unknown ∙ sym (ap (regime_of rd.cfg) none_seen)
    | inr (l, e) ↦
        let seen : samples_of symbol rd ≡ l = rw (e, samples_of) refl in
        let known : detect_regime symbol rd ≡ regime_of rd.cfg l = rw (e, detect_regime) refl in
        known ∙ sym (ap (regime_of rd.cfg) seen)
  ]

  persistent_exits :
      (symbol : String) (rd : RegimeDetector F)
      → detect_regime symbol rd ≡ some persistent
      → should_exit_all symbol rd ≡ some rd.cfg.exit_all_on_persistent
  unfolding should_exit_all
  persistent_exits symbol rd h = rw (h, should_exit_all) refl

  -- Whatever rates came before, as many negative rates of a symbol in a row as the configuration calls
  -- persistent, at least three and within the lookback, make its regime persistent, and all its
  -- positions are to be closed if the configuration says so.
  pub streak_exits :
      (cfg : RegimeConfig F) (p k : ℕ) (before streak : List (Rate F)) (symbol : String)
      → cfg.lookback_periods ≡ pos k
      → cfg.persistent_negative_periods ≡ pos p
      → 3 ≤ p
      → p ≤ k
      → length streak ≡ p
      → All (λ r. str_eq r.0 symbol ≡ true) streak
      → All (λ r. flt.le (flt.lit 0 0) r.1 ≡ false) streak
      → (rd : RegimeDetector F) × (record_rates (before ++ streak) (new_detector cfg) ≡ some rd)
        × (detect_regime symbol rd ≡ some persistent)
        × (should_exit_all symbol rd ≡ some cfg.exit_all_on_persistent)
  streak_exits cfg p k before streak symbol look periods three within count same neg =
      let (rd, done, kept, s) = record_rates_window cfg k (before ++ streak) symbol look in
      let latest = map sample streak in
      let old = samples_for symbol before in
      let size : length latest ≡ p = length-samples streak ∙ count in
      let all : samples_of symbol rd ≡ last k (old ++ latest) =
        s
        ∙ ap (last k) (
            samples_for-append symbol before streak
            ∙ ap (λ l. old ++ l) (samples_for_same symbol streak same)) in
      let cut : last p (samples_of symbol rd) ≡ latest =
        ap (last p) all
        ∙ last_of_last p k (old ++ latest) within
        ∙ ap (λ i. last i (old ++ latest)) (sym size)
        ∙ last_of_append old latest in
      let long : p ≤ length (samples_of symbol rd) = rw all (
        omega (
          arith,
          length-drop (length (old ++ latest) - k) (old ++ latest),
          length-append old latest,
          size,
          within,
        )) in
      let found : detect_regime symbol rd ≡ some persistent =
        detect_samples symbol rd
        ∙ regime_persistent rd.cfg p (samples_of symbol rd) latest (rw kept periods) three long cut
            (streak_negative streak neg) in
      (
        rd,
        done,
        found,
        persistent_exits symbol rd found ∙ ap (λ c. some c.exit_all_on_persistent) kept,
      )
