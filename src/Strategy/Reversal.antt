-- ===== src/Strategy/Reversal.antt =====
-- When the exit of a position closes what its entry opened.
use trading_challenge.Prelude.{
  ◌≡◌, refl, ap, ◌∙◌, str_eq, ◌↔◌, false, ℤ, lookup, lookup-insert, some, Float64, Bool-cases, inl,
  inr,
}
use text.Mathlib.TextPositions.{eq_refl}
use trading_challenge.Arb.Pair.{pair_id, AreReverse}
use trading_challenge.Strategy.Types.{PairCondition, Decision}
use trading_challenge.Strategy.Selector.{OpenPosition, Selector}
use trading_challenge.Strategy.Intents.{is_reversed, build_entry_intent, build_exit_intent}
use trading_challenge.Strategy.Evaluate.{entered_position, confirm_entry}

module _ {ℓ} {F : Type ℓ} ⦃flt : Float64 F⦄ where
  -- Once an entry is confirmed, the exit of the position takes back both legs of the entry exactly when
  -- the entry did not buy the primary.
  pub exit_reverses_iff :
      (cond : PairCondition F) (decision : Decision F) (notional : F) (entered now seq seq' : ℤ)
      (s : Selector F)
      → let s' =
          confirm_entry entered cond.primary_symbol cond.hedge_symbol decision.strategy notional
            cond s in
        let entry = build_entry_intent s.cfg cond decision notional entered seq in
        (p : OpenPosition F) × (lookup (pair_id cond.primary_symbol cond.hedge_symbol) s'.positions
          ≡ some p)
        × (AreReverse entry.legs (build_exit_intent s.cfg p now seq').legs
            ↔ (is_reversed decision cond ≡ false))
  unfolding confirm_entry build_entry_intent build_exit_intent
  exit_reverses_iff cond decision notional entered now seq seq' s =
      let pid = pair_id cond.primary_symbol cond.hedge_symbol in
      let p =
        entered_position entered cond.primary_symbol cond.hedge_symbol decision.strategy notional
          cond in
      (
        p,
        lookup-insert pid pid p s.positions ∙ rw (eq_refl pid) refl,
        elim (Bool-cases (is_reversed decision cond)) [
          | inl reversed ↦ rw reversed (λ h. ap (λ t. str_eq t "BUY") h.0.0, λ h. cc)
          | inr usual ↦ rw usual (λ h. refl, λ h. ((refl, refl, refl), ((refl, refl, refl), refl)))
        ],
      )
