-- ===== src/Execution/Bounds.antt =====
-- How many orders an execution places at most.
use trading_challenge.Prelude.{
  ℕ, mul64, zero, suc, ◌+◌, ◌*◌, ◌^◌, ◌-◌, ◌≤◌, ltb, ◌==◌, ◌≡◌, refl, ◌∙◌, ap, inl, inr, Bool, true,
  false, none, some, arith, String, ℤ, pos, lt_ℤ, Decimal, Float64, Convert, Bool-cases,
  Option-cases, if◌then◌else◌,
}
use trading_challenge.Arb.{TradeLeg, TradeIntent}
use trading_challenge.Exchange.{
  Category, linear, OrderRequest, OrderResponse, VenueConstraints, Exchange,
}
use trading_challenge.Execution.Types.{Config, LegResult}
use trading_challenge.Execution.Orders.{
  ms, is_settled, is_done, is_taken, is_limit, order_type, poll_loop, poll_order_status,
  unwind_request, leg_request, unwind_loop, attempt_loop,
}

module _ {ω ℓ κ} {W : Type ω} {D : Type ℓ} {F : Type κ} where
  -- The exchange with a count of the orders that were placed.
  unfoldable pub counted : Exchange W D F → Exchange (ℕ × W) D F
  counted client = record {
    now = λ s. let (w, t) = client.now s.1 in ((s.0, w), t);
    sleep = λ d s. (s.0, client.sleep d s.1);
    place_order = λ req s. let (w, answer) = client.place_order req s.1 in ((s.0 + 1, w), answer);
    cancel_order = λ cat symbol id s. (s.0, client.cancel_order cat symbol id s.1);
    get_order = λ cat symbol id s.
        let (w, answer) = client.get_order cat symbol id s.1 in ((s.0, w), answer);
    get_ticker_price = λ cat symbol s.
        let (w, answer) = client.get_ticker_price cat symbol s.1 in ((s.0, w), answer);
    get_constraints = λ cat symbol s.
        let (w, answer) = client.get_constraints cat symbol s.1 in ((s.0, w), answer);
  }

  -- What each call adds to the count.
  pub now-count : (client : Exchange W D F) (s : ℕ × W) → ((counted client).now s).0.0 ≡ s.0
  unfolding counted
  now-count client s = refl

  sleep-count :
      (client : Exchange W D F) (b : Bool) (d : ℤ) (s : ℕ × W)
      → (if b then (counted client).sleep d s else s).0 ≡ s.0
  unfolding counted
  sleep-count client true d s = refl
  sleep-count client false d s = refl

  place_order-count :
      (client : Exchange W D F) (req : OrderRequest D F) (s : ℕ × W)
      → ((counted client).place_order req s).0.0 ≡ s.0 + 1
  unfolding counted
  place_order-count client req s = refl

  cancel_order-count :
      (client : Exchange W D F) (b : Bool) (cat : Category) (symbol id : String) (s : ℕ × W)
      → (if b then (counted client).cancel_order cat symbol id s else s).0 ≡ s.0
  unfolding counted
  cancel_order-count client true cat symbol id s = refl
  cancel_order-count client false cat symbol id s = refl

  pub quote-count :
      (client : Exchange W D F) (cat : Category) (symbol : String) (s : ℕ × W)
      → ((counted client).get_ticker_price cat symbol
          ((counted client).get_constraints cat symbol s).0).0.0
        ≡ s.0
  unfolding counted
  quote-count client cat symbol s = refl

  poll_loop-count :
      (client : Exchange W D F) (left : ℕ) (cat : Category) (symbol id : String) (s : ℕ × W)
      → (poll_loop (counted client) left cat symbol id s).0.0 ≡ s.0
  unfolding poll_loop counted
  poll_loop-count client zero cat symbol id s = refl
  poll_loop-count client (suc left) cat symbol id s =
      let asked = client.get_order cat symbol id (client.sleep (ms (pos 500)) s.1) in
      let on = poll_loop-count client left cat symbol id (s.0, asked.0) in
      elim (Option-cases asked.1) [
        | inl silent ↦ rw (silent, poll_loop) on
        | inr (resp, said) ↦ elim (Bool-cases (is_settled resp.status)) [
          | inl settled ↦ rw (said, settled, poll_loop) refl
          | inr waiting ↦ rw (said, waiting, poll_loop) on
        ]
      ]

  poll_order_status-count :
      (client : Exchange W D F) (cat : Category) (symbol id : String) (s : ℕ × W)
      → (poll_order_status (counted client) cat symbol id s).0.0 ≡ s.0
  unfolding poll_order_status
  poll_order_status-count client = poll_loop-count client 10

module _ {ω ℓ κ} {W : Type ω} {D : Type ℓ} {F : Type κ} ⦃dec : Decimal D⦄ ⦃flt : Float64 F⦄
    ⦃conv : Convert D F⦄ (client : Exchange W D F) where
  pub unwind_loop-count :
      (left attempt : ℕ) (intent : TradeIntent F) (leg : TradeLeg F) (i : ℤ) (r : LegResult D)
      (s : ℕ × W)
      → (unwind_loop (counted client) left attempt intent leg i r s).0.0 ≤ s.0 + left
  unfolding unwind_loop
  unwind_loop-count zero attempt intent leg i r s = omega arith
  unwind_loop-count (suc left) attempt intent leg i r s =
      let waited : ℕ × W =
        if ltb 0 attempt
        then (counted client).sleep (pos (2 ^ (attempt - 1) * 1_000_000_000)) s
        else s in
      let placed = (counted client).place_order (unwind_request intent leg i attempt r) waited in
      let same : placed.0.0 ≡ s.0 + 1 =
        place_order-count client _ waited
        ∙ ap (λ n. n + 1) (sleep-count client (ltb 0 attempt) _ s) in
      let now = λ (s' : ℕ × W). now-count client s' in
      let on = λ (s' : ℕ × W). unwind_loop-count left (attempt + 1) intent leg i r s' in
      elim (Option-cases placed.1) [
        | inl failed ↦ elim (Bool-cases (attempt == 3)) [
          | inl final ↦
              rw (failed, final, unwind_loop)
                (omega (arith, on ((counted client).now placed.0).0, now placed.0, same))
          | inr early ↦ rw (failed, early, unwind_loop) (omega (arith, on placed.0, same))
        ]
        | inr (resp, answered) ↦
            let polled =
              poll_order_status (counted client) r.category r.symbol resp.order_id placed.0 in
            let asked = poll_order_status-count client r.category r.symbol resp.order_id placed.0 in
            elim (Bool-cases (is_done polled.1)) [
              | inl done ↦
                  rw (answered, done, unwind_loop) (omega (arith, now polled.0, asked, same))
              | inr still ↦ elim (Bool-cases (ltb attempt 3)) [
                | inl more ↦
                    rw (answered, still, more, unwind_loop)
                      (omega (arith, on polled.0, asked, same))
                | inr last ↦
                    rw (answered, still, last, unwind_loop)
                      (omega (arith, now polled.0, asked, same))
              ]
            ]
      ]

  pub attempt_loop-count :
      (left attempt : ℕ) (cfg : Config F) (intent : TradeIntent F) (vc : VenueConstraints F)
      (leg : TradeLeg F) (i : ℕ) (mid target qty : F) (s : ℕ × W)
      → (attempt_loop (counted client) left attempt cfg intent vc leg i mid target qty s).0.0
        ≤ s.0 + left
  unfolding attempt_loop
  attempt_loop-count zero attempt cfg intent vc leg i mid target qty s = omega arith
  attempt_loop-count (suc left) attempt cfg intent vc leg i mid target qty s =
      let waited : ℕ × W =
        if ltb 0 attempt
        then (counted client).sleep (ms (mul64 (pos attempt) (pos 500))) s
        else s in
      let timed = (counted client).now waited in
      let placed =
        (counted client).place_order (leg_request cfg intent vc leg i mid target qty attempt)
          timed.0 in
      let now = λ (s' : ℕ × W). now-count client s' in
      let same : placed.0.0 ≡ s.0 + 1 =
        place_order-count client _ timed.0
        ∙ ap (λ n. n + 1) (now waited ∙ sleep-count client (ltb 0 attempt) _ s) in
      let on = λ (s' : ℕ × W).
        attempt_loop-count left (attempt + 1) cfg intent vc leg i mid target qty s' in
      elim (Option-cases placed.1) [
        | inl failed ↦ elim (Bool-cases (lt_ℤ (pos attempt) cfg.max_retries_per_leg)) [
          | inl again ↦
              rw (failed, again, attempt_loop)
                (omega (arith, on ((counted client).now placed.0).0, now placed.0, same))
          | inr last ↦ rw (failed, last, attempt_loop) (omega (arith, on placed.0, same))
        ]
        | inr (resp, answered) ↦
            let polled =
              poll_order_status (counted client) linear leg.symbol resp.order_id placed.0 in
            let asked = poll_order_status-count client linear leg.symbol resp.order_id placed.0 in
            let final : OrderResponse D = elim polled.1 [ none ↦ resp | some r ↦ r ] in
            let stop = is_limit (order_type cfg attempt) in
            let after : ℕ × W =
              if stop
              then (counted client).cancel_order linear leg.symbol final.order_id polled.0
              else polled.0 in
            let cancelled =
              cancel_order-count client stop linear leg.symbol final.order_id polled.0 in
            elim (Bool-cases (is_taken final)) [
              | inl taken ↦ rw (answered, taken, attempt_loop) (omega (arith, asked, same))
              | inr other ↦
                  rw (answered, other, attempt_loop)
                    (omega (arith, on after, cancelled, asked, same))
            ]
      ]
