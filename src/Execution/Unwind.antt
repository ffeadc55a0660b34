-- ===== src/Execution/Unwind.antt =====
-- How an execution leaves the loop over the legs, and what the unwinding of a leg reports.
use trading_challenge.Prelude.{
  ℕ, zero, suc, ◌+◌, ◌*◌, ◌^◌, ◌-◌, ltb, ◌==◌, ◌≡◌, refl, ◌⊎◌, inl, inr, Bool, true, false, List,
  [], ◌∷◌, arith, ℤ, pos, Decimal, Float64, Convert, Bool-cases, Option-cases, if◌then◌else◌,
}
use trading_challenge.Arb.{TradeLeg, TradeIntent}
use trading_challenge.Exchange.{Exchange}
use trading_challenge.Execution.Types.{order_filled, hedge_failed, ExecutionEvent, LegResult}
use trading_challenge.Execution.Orders.{
  is_done, unwind_request, poll_order_status, unwind_loop, emergency_unwind,
}

module _ {ℓ} {F : Type ℓ} where
  -- One event, that reports of a leg that it was taken back or that this failed.
  abbrev pub IsReport : TradeIntent F → ℤ → List (ExecutionEvent F) → Type ℓ
  IsReport intent i events =
      (e : ExecutionEvent F) × (events ≡ e ∷ [])
      × ((e.event_type ≡ order_filled) ⊎ (e.event_type ≡ hedge_failed))
      × (e.leg_index ≡ i)
      × (e.intent_id ≡ intent.intent_id)

-- Either way something is reported.
report_cases :
    (b : Bool)
    → ((if b then order_filled else hedge_failed) ≡ order_filled)
      ⊎ ((if b then order_filled else hedge_failed) ≡ hedge_failed)
report_cases true = inl refl
report_cases false = inr refl

module _ {ω ℓ κ} {W : Type ω} {D : Type ℓ} {F : Type κ} ⦃dec : Decimal D⦄ ⦃flt : Float64 F⦄
    ⦃conv : Convert D F⦄ (client : Exchange W D F) where
  abbrev waited : ℕ → W → W
  waited attempt w =
      if ltb 0 attempt then client.sleep (pos (2 ^ (attempt - 1) * 1_000_000_000)) w else w

  unwind_loop-IsReport :
      (left attempt : ℕ) (intent : TradeIntent F) (leg : TradeLeg F) (i : ℤ) (r : LegResult D)
      (w : W)
      → suc left + attempt ≡ 4
      → IsReport intent i (unwind_loop client (suc left) attempt intent leg i r w).1
  unfolding unwind_loop
  unwind_loop-IsReport zero attempt intent leg i r w h =
      let final : (attempt == 3) ≡ true = ground arith in
      let no_more : ltb attempt 3 ≡ false = ground arith in
      let placed = client.place_order (unwind_request intent leg i attempt r) (waited attempt w) in
      elim (Option-cases placed.1) [
        | inl failed ↦ rw (failed, final, unwind_loop) (_, refl, inr refl, refl, refl)
        | inr (resp, answered) ↦
            let polled = poll_order_status client r.category r.symbol resp.order_id placed.0 in
            elim (Bool-cases (is_done polled.1)) [
              | inl done ↦ rw (answered, done, unwind_loop) (_, refl, report_cases _, refl, refl)
              | inr still ↦
                  rw (answered, still, no_more, unwind_loop) (_, refl, report_cases _, refl, refl)
            ]
      ]
  unwind_loop-IsReport (suc left) attempt intent leg i r w h =
      let not_final : (attempt == 3) ≡ false = ground arith in
      let more : ltb attempt 3 ≡ true = ground arith in
      let placed = client.place_order (unwind_request intent leg i attempt r) (waited attempt w) in
      let on =
        λ (w' : W). unwind_loop-IsReport left (attempt + 1) intent leg i r w' (ground arith) in
      elim (Option-cases placed.1) [
        | inl failed ↦ rw (failed, not_final, unwind_loop) (on placed.0)
        | inr (resp, answered) ↦
            let polled = poll_order_status client r.category r.symbol resp.order_id placed.0 in
            elim (Bool-cases (is_done polled.1)) [
              | inl done ↦ rw (answered, done, unwind_loop) (_, refl, report_cases _, refl, refl)
              | inr still ↦ rw (answered, still, more, unwind_loop) (on polled.0)
            ]
      ]

  pub emergency_unwind-IsReport :
      (intent : TradeIntent F) (leg : TradeLeg F) (i : ℤ) (r : LegResult D) (w : W)
      → IsReport intent i (emergency_unwind client intent leg i r w).1
  unfolding emergency_unwind
  emergency_unwind-IsReport intent leg i r w = unwind_loop-IsReport 3 0 intent leg i r w refl
