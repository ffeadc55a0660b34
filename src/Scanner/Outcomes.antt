-- ===== src/Scanner/Outcomes.antt =====
-- internal/scanner/tracker.go: the search for a stop-loss or a target against the outcome of a trade.
use trading_challenge.Prelude.{
  some_inj, ◌≡◌, refl, sym, ◌∙◌, ap, Bool, true, false, ◌&&◌, none, some, [], ◌∷◌, some_of, arith,
  String, str_eq, eq_iff, if◌then◌else◌, Dict, lookup, IsMap, Float64, Bool-cases, inl, inr,
}
use trading_challenge.Scanner.Types.{TradeOutcome, tp_hit, sl_hit}
use trading_challenge.Scanner.Performance.{TradeRecord}
use trading_challenge.Scanner.Tracker.{
  OutcomeTracker, is_triggered, check_price_for_outcome, outcome_of, determine_outcome,
}

abbrev pub is_hit : TradeOutcome → Bool
is_hit tp_hit = true
is_hit sl_hit = true
is_hit _ = false

module _ {ℓ} {F : Type ℓ} ⦃flt : Float64 F⦄ where
  triggered_lem :
      (rec : TradeRecord F) (price : F) → is_triggered rec price ≡ is_hit (outcome_of rec price)
  unfolding is_triggered outcome_of
  triggered_lem rec price = ground arith

  absent_lem :
      (id symbol : String) (price : F) (m : Dict (TradeRecord F))
      → lookup id m ≡ none
      → some_of (str_eq id) (check_price_for_outcome symbol price m) ≡ false
  unfolding check_price_for_outcome some_of lookup
  absent_lem id symbol price [] h = refl
  absent_lem id symbol price ((at, rec) ∷ m) h =
      ground (arith, eq_iff at id, eq_iff id at, absent_lem id symbol price m)

  listed_lem :
      (id at symbol : String) (price : F) (r : TradeRecord F) (m : Dict (TradeRecord F))
      → str_eq id at ≡ true
      → some_of (str_eq id) (check_price_for_outcome symbol price m) ≡ false
      → some_of (str_eq id) (check_price_for_outcome symbol price ((at, r) ∷ m))
        ≡ (str_eq r.alert.symbol symbol && is_triggered r price)
  unfolding check_price_for_outcome some_of
  listed_lem id at symbol price r m back later = elim (Bool-cases (str_eq r.alert.symbol symbol)) [
    | inl traded ↦ elim (Bool-cases (is_triggered r price)) [
      | inl hit ↦ rw (traded, hit) (ground (arith, back))
      | inr open_still ↦ rw (traded, open_still) later
    ]
    | inr other ↦ rw other later
  ]

  check_lem :
      (id symbol : String) (price : F) (m : Dict (TradeRecord F)) (rec : TradeRecord F)
      → IsMap m
      → lookup id m ≡ some rec
      → some_of (str_eq id) (check_price_for_outcome symbol price m)
        ≡ (str_eq rec.alert.symbol symbol && is_triggered rec price)
  unfolding check_price_for_outcome some_of lookup
  check_lem id symbol price [] rec map found = cc
  check_lem id symbol price ((at, r) ∷ m) rec (new, map) found = elim (Bool-cases (str_eq at id)) [
    | inl same ↦
        let equal : at ≡ id = (eq_iff at id).0 same in
        let back : str_eq id at ≡ true = (eq_iff id at).1 (sym equal) in
        let first : some r ≡ some rec =
          rw⁻¹ (ap (λ b. if b then some r else lookup id m) same) found in
        let later : some_of (str_eq id) (check_price_for_outcome symbol price m) ≡ false =
          absent_lem id symbol price m (rw⁻¹ equal new) in
        rw⁻¹ (some_inj first) (listed_lem id at symbol price r m back later)
    | inr other ↦
        ground (arith, other, eq_iff id at, eq_iff at id, check_lem id symbol price m rec map)
  ]

  -- With one entry for each trade, a price triggers an open trade exactly when the trade is in that symbol
  -- and its outcome at that price is the stop-loss or the target.
  pub triggered_iff :
      (id symbol : String) (price : F) (t : OutcomeTracker F) (rec : TradeRecord F)
      → IsMap t.open_trades
      → lookup id t.open_trades ≡ some rec
      → some_of (str_eq id) (check_price_for_outcome symbol price t.open_trades)
        ≡ (str_eq rec.alert.symbol symbol && is_hit (determine_outcome id price t))
  unfolding determine_outcome
  triggered_iff id symbol price t rec map found =
      let known : determine_outcome id price t ≡ outcome_of rec price =
        rw (found, determine_outcome) refl in
      check_lem id symbol price t.open_trades rec map found
      ∙ ap (λ b. str_eq rec.alert.symbol symbol && b)
          (triggered_lem rec price ∙ sym (ap is_hit known))
