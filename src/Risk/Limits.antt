-- ===== src/Risk/Limits.antt =====
-- The margin monitor: its alerts agree with its queries.
use trading_challenge.Prelude.{
  ◌≡◌, ◌↔◌, ◌⊎◌, true, List, [], ◌∷◌, arith, Decimal, is_positive, Float64, Convert,
}
use trading_challenge.Risk.Margin.{
  Snapshot, Level, warn, critical, halt, Alert, Monitor, ratio_alert, update_margin,
  current_ratio_pct, needs_halt, needs_reduce_position,
}

-- The levels of a list of alerts: at most one.
abbrev pub levels {ℓ} : {F : Type ℓ} → List (Alert F) → List Level
levels [] = []
levels (a ∷ rest) = a.level ∷ levels rest

module _ {ℓ κ} {D : Type ℓ} {F : Type κ} ⦃dec : Decimal D⦄ ⦃flt : Float64 F⦄
    ⦃conv : Convert D F⦄ where
  -- With a positive equity, an update raises the alert HALT exactly when the monitor then asks for a
  -- halt, and the alert HALT or CRITICAL exactly when it asks for a halt or a smaller position; it
  -- raises one alert at most.
  pub update_margin_agrees :
      (snap : Snapshot D) (m : Monitor D F)
      → is_positive snap.total_equity ≡ true
      → let (m', alerts) = update_margin snap m in
        ((levels alerts ≡ halt ∷ []) ↔ (needs_halt m' ≡ true))
        × (((levels alerts ≡ halt ∷ []) ⊎ (levels alerts ≡ critical ∷ []))
            ↔ ((needs_halt m' ≡ true) ⊎ (needs_reduce_position m' ≡ true)))
        × ((alerts ≡ [])
            ⊎ (levels alerts ≡ warn ∷ [])
            ⊎ (levels alerts ≡ critical ∷ [])
            ⊎ (levels alerts ≡ halt ∷ []))
  unfolding update_margin ratio_alert needs_halt needs_reduce_position current_ratio_pct
  update_margin_agrees snap m p = ground arith
