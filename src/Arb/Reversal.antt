-- ===== src/Arb/Reversal.antt =====
-- When the exit of a spread position closes what its entry opened.
use trading_challenge.Prelude.{◌≡◌, refl, ap, ◌↔◌, false, str_eq, ℤ, Float64, Bool-cases, inl, inr}
use trading_challenge.Arb.Pair.{PairConfig, AreReverse}
use trading_challenge.Arb.Stats.{RollingStats}
use trading_challenge.Arb.Engine.{BasisConfig, PairState, entered_position}
use trading_challenge.Arb.Evaluate.{deviation_of, primary_notional, entry_intent, exit_intent}

module _ {ℓ} {F : Type ℓ} ⦃flt : Float64 F⦄ where
  -- With a positive beta, the exit of a spread position takes back both legs of its entry exactly when the
  -- spread was on the same side of the mean at the entry and, by what was recorded, at the confirmation.
  pub spread_exit_reverses_iff :
      (cfg : BasisConfig F) (pair : PairConfig F) (ps : PairState F)
      (equity spread later recorded : F) (stats confirmed : RollingStats F)
      (now entered left seq seq' : ℤ)
      → flt.le ps.beta (flt.lit 0 0) ≡ false
      → let p =
          entered_position entered pair.primary pair.hedge
            (primary_notional cfg equity)
            ps.beta
            recorded
            confirmed in
        AreReverse
          (entry_intent cfg pair ps equity spread stats now seq).legs
          (exit_intent cfg p later left seq').legs
        ↔ (flt.lt (deviation_of spread stats) (flt.lit 0 0) ≡ flt.lt recorded confirmed.mean)
  unfolding entry_intent exit_intent
  spread_exit_reverses_iff cfg pair ps equity spread later recorded stats confirmed now entered left
        seq seq' positive =
      elim (Bool-cases (flt.lt (deviation_of spread stats) (flt.lit 0 0))) [
        | inl below ↦ elim (Bool-cases (flt.lt recorded confirmed.mean)) [
          | inl low ↦
              rw (positive, below, low)
                (λ h. refl, λ h. ((refl, refl, refl), ((refl, refl, refl), refl)))
          | inr high ↦ rw (positive, below, high) (λ h. ap (λ t. str_eq t "BUY") h.0.0, λ h. cc)
        ]
        | inr above ↦ elim (Bool-cases (flt.lt recorded confirmed.mean)) [
          | inl low ↦ rw (positive, above, low) (λ h. ap (λ t. str_eq t "BUY") h.0.0, λ h. cc)
          | inr high ↦
              rw (positive, above, high)
                (λ h. refl, λ h. ((refl, refl, refl), ((refl, refl, refl), refl)))
        ]
      ]
