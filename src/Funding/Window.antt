-- ===== src/Funding/Window.antt =====
-- The lookback window of the regime detector.
use trading_challenge.Prelude.{
  ℕ, zero, suc, ◌+◌, ◌-◌, ◌≤◌, ◌≡◌, refl, sym, ◌∙◌, ap, inl, inr, Option, none, some, List, [], ◌∷◌,
  ◌++◌, map, length, length-append, length-drop, drop, select, arith, String, str_eq, eq_iff,
  lookup, insert, lookup-insert, if◌then◌else◌, ℤ, pos, lt_ℤ, Bool-cases,
}
use mathlib.Core.List.{append-nil, append_assoc}
use trading_challenge.Funding.Regime.{
  RegimeConfig, RateSample, RegimeDetector, tail, keep_window, new_detector, samples_of,
  record_rate,
}

-- The last k items of a list, or all where there are fewer.
abbrev pub last {ℓ} : {A : Type ℓ} → ℕ → List A → List A
last k l = drop (length l - k) l

module _ {ℓ} {A : Type ℓ} where
  drop-append : (n : ℕ) (xs ys : List A) → n ≤ length xs → drop n (xs ++ ys) ≡ drop n xs ++ ys
  drop-append zero xs ys h = refl
  drop-append (suc n) [] ys h = absurd (omega arith)
  drop-append (suc n) (x ∷ xs) ys h = drop-append n xs ys (omega arith)

  drop_nil : (n : ℕ) → drop {A = A} n [] ≡ []
  drop_nil zero = refl
  drop_nil (suc n) = refl

  pub drop-drop : (m n : ℕ) (xs : List A) → drop m (drop n xs) ≡ drop (n + m) xs
  drop-drop m zero xs = ap (λ i. drop i xs) (omega arith)
  drop-drop m (suc n) [] = drop_nil m ∙ sym (drop_nil (suc n + m))
  drop-drop m (suc n) (x ∷ xs) =
      let more : suc (n + m) ≡ suc n + m = omega arith in
      drop-drop m n xs ∙ ap (λ i. drop i (x ∷ xs)) more

  -- The last of a list whose front was cut to the window already.
  last-append : (k : ℕ) (xs ys : List A) → last k (last k xs ++ ys) ≡ last k (xs ++ ys)
  last-append k xs ys =
      let n = length xs - k in
      ap (λ l. drop (length (drop n xs ++ ys) - k) l) (sym (drop-append n xs ys (omega arith)))
      ∙ drop-drop (length (drop n xs ++ ys) - k) n (xs ++ ys)
      ∙ ap (λ i. drop i (xs ++ ys))
          (omega (arith, length-append (drop n xs) ys, length-drop n xs, length-append xs ys))

  length-last-le : (k : ℕ) (l : List A) → length (last k l) ≤ k
  length-last-le k l = omega (arith, length-drop (length l - k) l)

  last_short : (k : ℕ) (l : List A) → length l ≤ k → last k l ≡ l
  last_short k l h = let none_over : length l - k ≡ 0 = omega arith in ap (λ i. drop i l) none_over

  pub tail-last : (k : ℕ) (l : List A) → k ≤ length l → tail (pos k) l ≡ some (last k l)
  unfolding tail
  tail-last k l h = ground arith

  keep_window-last : (k : ℕ) (l : List A) → keep_window (pos k) l ≡ some (last k l)
  unfolding keep_window
  keep_window-last k l = elim (Bool-cases (lt_ℤ (pos k) (pos (length l)))) [
    | inl more ↦ rw more (tail-last k l (ground arith))
    | inr few ↦ rw few (ap some (sym (last_short k l (ground arith))))
  ]

  pub last_of_append : (xs ys : List A) → last (length ys) (xs ++ ys) ≡ ys
  last_of_append xs ys =
      ap (λ i. drop i (xs ++ ys)) (omega (arith, length-append xs ys))
      ∙ drop-append (length xs) xs ys (omega arith)
      ∙ ap (λ l. l ++ ys) (drop_all xs)
    where
      drop_all : (l : List A) → drop (length l) l ≡ []
      drop_all [] = refl
      drop_all (x ∷ l) = drop_all l

-- A rate that is recorded: its symbol, its value and its time.
abbrev pub Rate {ℓ} : Type ℓ → Type ℓ
Rate F = String × F × ℤ

module _ {ℓ} {F : Type ℓ} where
  abbrev pub sample : Rate F → RateSample F
  sample (symbol, rate, ts) = record { symbol = symbol; rate = rate; ts_ms = ts }

  -- A series of rates; `none` is a panic.
  unfoldable pub record_rates : List (Rate F) → RegimeDetector F → Option (RegimeDetector F)
  record_rates [] rd = some rd
  record_rates ((symbol, rate, ts) ∷ rs) rd = elim (record_rate symbol rate ts rd) [
    | none ↦ none
    | some rd' ↦ record_rates rs rd'
  ]

  -- The samples of one symbol in a series.
  abbrev pub samples_for : String → List (Rate F) → List (RateSample F)
  samples_for symbol rs = map sample (select (λ r. str_eq r.0 symbol) rs)

  record_rate_lem :
      (symbol : String) (rate : F) (ts : ℤ) (rd : RegimeDetector F) (k : ℕ)
      → rd.cfg.lookback_periods ≡ pos k
      → record_rate symbol rate ts rd
        ≡ some (record rd {
          samples =
              insert symbol
                (last k (samples_of symbol rd ++ (sample (symbol, rate, ts) ∷ [])))
                rd.samples;
        })
  unfolding record_rate
  record_rate_lem symbol rate ts rd k e =
      let all = samples_of symbol rd ++ (sample (symbol, rate, ts) ∷ []) in
      let kept : keep_window rd.cfg.lookback_periods all ≡ some (last k all) =
        ap (λ x. keep_window x all) e ∙ keep_window-last k all in
      rw (kept, record_rate) refl

  samples_of-insert :
      (k j : String) (l : List (RateSample F)) (rd : RegimeDetector F)
      → samples_of j (record rd { samples = insert k l rd.samples })
        ≡ (if str_eq k j then l else samples_of j rd)
  unfolding samples_of
  samples_of-insert k j l rd = elim (Bool-cases (str_eq k j)) [
    | inl e ↦ rw (lookup-insert k j l rd.samples, e, samples_of) refl
    | inr e ↦ rw (lookup-insert k j l rd.samples, e, samples_of) refl
  ]

  samples_for-cons :
      (symbol : String) (r : Rate F) (rs : List (Rate F))
      → samples_for symbol (r ∷ []) ++ samples_for symbol rs ≡ samples_for symbol (r ∷ rs)
  unfolding select
  samples_for-cons symbol r rs = elim (Bool-cases (str_eq r.0 symbol)) [
    | inl same ↦ rw same refl
    | inr other ↦ rw other refl
  ]

  step_lem :
      (symbol : String) (r : Rate F) (rd : RegimeDetector F) (k : ℕ)
      → rd.cfg.lookback_periods ≡ pos k
      → length (samples_of symbol rd) ≤ k
      → (rd' : RegimeDetector F) × (record_rate r.0 r.1 r.2 rd ≡ some rd')
        × (rd'.cfg ≡ rd.cfg)
        × (length (samples_of symbol rd') ≤ k)
        × (samples_of symbol rd' ≡ last k (samples_of symbol rd ++ samples_for symbol (r ∷ [])))
  unfolding select
  step_lem symbol r rd k e w =
      let cut = last k (samples_of r.0 rd ++ (sample r ∷ [])) in
      let seen = samples_of-insert r.0 symbol cut rd in
      elim (Bool-cases (str_eq r.0 symbol)) [
        | inl same ↦
            let now : samples_of symbol (record rd { samples = insert r.0 cut rd.samples }) ≡ cut =
              seen ∙ rw same refl in
            (
              record rd { samples = insert r.0 cut rd.samples },
              record_rate_lem r.0 r.1 r.2 rd k e,
              refl,
              rw now (length-last-le k (samples_of r.0 rd ++ (sample r ∷ []))),
              now
                  ∙ rw same (
                      ap (λ s. last k (samples_of s rd ++ (sample r ∷ [])))
                        ((eq_iff r.0 symbol).0 same)),
            )
        | inr other ↦
            let now : samples_of symbol (record rd { samples = insert r.0 cut rd.samples })
                ≡ samples_of symbol rd =
              seen ∙ rw other refl in
            (
              record rd { samples = insert r.0 cut rd.samples },
              record_rate_lem r.0 r.1 r.2 rd k e,
              refl,
              rw now w,
              now
                  ∙ rw other
                      (sym (ap (last k) (append-nil (samples_of symbol rd)) ∙ last_short k _ w)),
            )
      ]

  record_rates_lem :
      (symbol : String) (rs : List (Rate F)) (rd : RegimeDetector F) (k : ℕ)
      → rd.cfg.lookback_periods ≡ pos k
      → length (samples_of symbol rd) ≤ k
      → (rd' : RegimeDetector F) × (record_rates rs rd ≡ some rd')
        × (rd'.cfg ≡ rd.cfg)
        × (samples_of symbol rd' ≡ last k (samples_of symbol rd ++ samples_for symbol rs))
  unfolding record_rates select
  record_rates_lem symbol [] rd k e w =
      (rd, refl, refl, sym (ap (last k) (append-nil (samples_of symbol rd)) ∙ last_short k _ w))
  record_rates_lem symbol (r ∷ rs) rd k e w =
      let (rd₁, done, cfg, w₁, s₁) = step_lem symbol r rd k e w in
      let (rd', all, cfg', s') = record_rates_lem symbol rs rd₁ k (rw cfg e) w₁ in
      (
        rd',
        rw (done, record_rates) all,
        cfg' ∙ cfg,
        s'
            ∙ ap (λ l. last k (l ++ samples_for symbol rs)) s₁
            ∙ last-append k (samples_of symbol rd ++ samples_for symbol (r ∷ []))
                (samples_for symbol rs)
            ∙ ap (last k) (
                append_assoc (samples_of symbol rd) (samples_for symbol (r ∷ []))
                  (samples_for symbol rs)
                ∙ ap (λ l. samples_of symbol rd ++ l) (samples_for-cons symbol r rs)),
      )

  -- With a lookback that is not negative, recording never panics, and a new detector keeps its
  -- configuration and ends with the latest rates of each symbol, as many as the lookback says, in the
  -- order in which they came.
  pub record_rates_window :
      (cfg : RegimeConfig F) (k : ℕ) (rs : List (Rate F)) (symbol : String)
      → cfg.lookback_periods ≡ pos k
      → (rd : RegimeDetector F) × (record_rates rs (new_detector cfg) ≡ some rd)
        × (rd.cfg ≡ cfg)
        × (samples_of symbol rd ≡ last k (samples_for symbol rs))
  unfolding new_detector samples_of lookup
  record_rates_window cfg k rs symbol e =
      let (rd, all, same, s) = record_rates_lem symbol rs (new_detector cfg) k e (omega arith) in
      (rd, all, same, s)
