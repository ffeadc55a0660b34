-- ===== src/Execution/Hedge.antt =====
-- How an execution leaves the loop over the legs: no leg of a pair is left without the other.
use trading_challenge.Prelude.{
  ℕ, ◌≡◌, refl, sym, ◌∙◌, ap, ◌⊎◌, inl, inr, true, false, none, some, List, [], ◌∷◌, ◌++◌, All, ℤ,
  pos, lt_ℤ, Decimal, is_zero, Float64, Convert, Bool-cases, Option-cases,
}
use mathlib.Core.List.{append_assoc}
use trading_challenge.Arb.{TradeLeg, TradeIntent}
use trading_challenge.Exchange.{linear, VenueConstraints, Exchange}
use trading_challenge.Execution.Types.{
  ExecutionEvent, Config, LegResult, no_result, bare_event, hedge_drift,
}
use trading_challenge.Execution.Orders.{emergency_unwind, attempt_loop, attempts}
use trading_challenge.Execution.Sizing.{Previous, is_below_minimum, order_qty, target_notional}
use trading_challenge.Execution.Executor.{
  abandon, Outcome, order_leg, execute_leg, execute_legs, has_drifted,
}
use trading_challenge.Execution.Unwind.{IsReport, emergency_unwind-IsReport}

module _ {ω ℓ κ} {W : Type ω} {D : Type ℓ} {F : Type κ} ⦃dec : Decimal D⦄ ⦃flt : Float64 F⦄
    ⦃conv : Convert D F⦄ (client : Exchange W D F) where
  -- A leg is filled, or what was done last is to abandon the leg before.
  IsLeft : TradeIntent F → Previous D F → Outcome W D F → Type (ω ⊔ ℓ ⊔ κ)
  IsLeft intent previous (w', events, left) =
      ((r : LegResult D) × (left ≡ some r) × (r.filled ≡ true))
      ⊎ ((left ≡ none)
          × (w₁ : W) × (before : List (ExecutionEvent F)) × (w'
              ≡ (abandon client intent previous w₁).0)
          × (events ≡ before ++ (abandon client intent previous w₁).1))

  order_leg-IsLeft :
      (cfg : Config F) (intent : TradeIntent F) (previous : Previous D F) (leg : TradeLeg F) (i : ℕ)
      (started : ℤ) (vc : VenueConstraints F) (price : D) (w : W)
      → IsLeft intent previous (order_leg client cfg intent previous leg i started vc price w)
  unfolding order_leg IsLeft
  order_leg-IsLeft cfg intent previous leg i started vc price w =
      let mid = conv.to_float price in
      let target = target_notional intent leg previous in
      let qty = order_qty vc target mid in
      let tried =
        attempt_loop client (attempts cfg.max_retries_per_leg) 0 cfg intent vc leg i mid target qty
          w in
      elim (Bool-cases (is_below_minimum vc qty mid)) [
        | inl below ↦ rw (below, order_leg) (inr (refl, _, [], refl, refl))
        | inr enough ↦ elim (Option-cases tried.2) [
          | inl failed ↦ rw (enough, failed, order_leg) (inr (refl, _, _, refl, refl))
          | inr (order, taken) ↦ rw (enough, taken, order_leg) (inl (_, refl, refl))
        ]
      ]

  execute_leg-IsLeft :
      (cfg : Config F) (intent : TradeIntent F) (previous : Previous D F) (leg : TradeLeg F) (i : ℕ)
      (started : ℤ) (w : W)
      → IsLeft intent previous (execute_leg client cfg intent previous leg i started w)
  unfolding execute_leg IsLeft
  execute_leg-IsLeft cfg intent previous leg i started w =
      let clock = client.now w in
      let drift = has_drifted client cfg previous clock.0 in
      let given = client.get_constraints linear leg.symbol drift.0 in
      let quoted = client.get_ticker_price linear leg.symbol given.0 in
      elim (Bool-cases (lt_ℤ intent.expires_ms clock.1)) [
        | inl late ↦ rw (late, execute_leg) (inr (refl, _, [], refl, refl))
        | inr live ↦ elim (Bool-cases drift.1) [
          | inl drifted ↦
              let late =
                bare_event hedge_drift intent.intent_id intent.strategy (pos i) leg.symbol
                  (client.now drift.0).1 in
              rw (live, drifted, execute_leg) (inr (refl, _, late ∷ [], refl, refl))
          | inr near ↦ elim (Option-cases quoted.1) [
            | inl silent ↦ rw (live, near, silent, execute_leg) (inr (refl, _, [], refl, refl))
            | inr (price, said) ↦ elim (Bool-cases (is_zero price)) [
              | inl nothing ↦
                  rw (live, near, said, nothing, execute_leg) (inr (refl, _, [], refl, refl))
              | inr priced ↦
                  rw (live, near, said, priced, execute_leg)
                    (order_leg-IsLeft cfg intent previous leg i started _ price quoted.0)
            ]
          ]
        ]
      ]

  -- The unwinding of the leg before is the last thing that happened.
  pub IsUnwound :
      TradeIntent F → TradeLeg F → ℤ → LegResult D → W → List (ExecutionEvent F) → Type (ω ⊔ κ)
  IsUnwound intent leg i r w' events =
      (w₁ : W) × (before : List (ExecutionEvent F)) × (w'
        ≡ (emergency_unwind client intent leg i r w₁).0)
      × (events ≡ before ++ (emergency_unwind client intent leg i r w₁).1)
      × IsReport intent i (emergency_unwind client intent leg i r w₁).1

  abandon-filled :
      (intent : TradeIntent F) (leg : TradeLeg F) (i : ℤ) (r : LegResult D) (w : W)
      → r.filled ≡ true
      → abandon client intent (some (leg, i, r)) w ≡ emergency_unwind client intent leg i r w
  unfolding abandon
  abandon-filled intent leg i r w filled = rw filled refl

  abandon-IsUnwound :
      (intent : TradeIntent F) (leg : TradeLeg F) (i : ℤ) (r : LegResult D) (w₁ w' : W)
      (first before events : List (ExecutionEvent F))
      → r.filled ≡ true
      → w' ≡ (abandon client intent (some (leg, i, r)) w₁).0
      → events ≡ before ++ (abandon client intent (some (leg, i, r)) w₁).1
      → IsUnwound intent leg i r w' (first ++ events)
  unfolding IsUnwound
  abandon-IsUnwound intent leg i r w₁ w' first before events filled world said = (
    w₁,
    first ++ before,
    world ∙ ap (λ p. p.0) (abandon-filled intent leg i r w₁ filled),
    ap (λ l. first ++ l) (said ∙ ap (λ p. before ++ p.1) (abandon-filled intent leg i r w₁ filled))
        ∙ sym (append_assoc first before _),
    emergency_unwind-IsReport client intent leg i r w₁,
  )

  -- Of a pair of legs either none is filled, or both are, or the first alone: then the last thing that
  -- happens is that it is unwound, and the last event is the one report of whether this succeeded.
  pub no_naked_leg :
      (cfg : Config F) (intent : TradeIntent F) (a b : TradeLeg F) (started : ℤ) (w : W)
      → let run = execute_legs client cfg intent none 0 started (a ∷ b ∷ []) w in
        All (λ r. r.filled ≡ false) run.2
        ⊎ All (λ r. r.filled ≡ true) run.2
        ⊎ ((r : LegResult D) × (r.filled ≡ true)
            × (run.2 ≡ r ∷ no_result ∷ [])
            × IsUnwound intent a (pos 0) r run.0 run.1)
  unfolding execute_legs IsLeft
  no_naked_leg cfg intent a b started w =
      let first = execute_leg client cfg intent none a 0 started w in
      elim (execute_leg-IsLeft cfg intent none a 0 started w) [
        | inr (out, _, _, _, _) ↦ rw (out, execute_legs) (inl (refl, (refl, _)))
        | inl (r, got, filled) ↦
            elim (execute_leg-IsLeft cfg intent (some (a, pos 0, r)) b 1 started first.0) [
              | inl (r', got', filled') ↦
                  rw (got, got', execute_legs) (inr (inl (filled, (filled', _))))
              | inr (out, w₁, before, world, said) ↦
                  rw (got, out, execute_legs)
                    (inr (
                      inr (
                        r,
                        filled,
                        refl,
                        abandon-IsUnwound intent a (pos 0) r w₁ _ first.1 before _ filled world
                            said,
                      )))
            ]
      ]
