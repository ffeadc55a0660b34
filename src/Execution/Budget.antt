-- ===== src/Execution/Budget.antt =====
-- An execution places a bounded number of orders: its attempts at each leg, and those of one unwinding.
use trading_challenge.Prelude.{
  ℕ, ◌+◌, ◌*◌, ◌≤◌, ◌≡◌, refl, ap, inl, inr, Option, none, some, List, [], ◌∷◌, length, arith,
  some_of, ℤ, pos, lt_ℤ, Decimal, is_zero, Float64, Convert, Bool-cases, Option-cases,
}
use native.Mathlib.Nat.{suc-mul}
use trading_challenge.Arb.{TradeLeg, TradeIntent}
use trading_challenge.Exchange.{linear, OrderResponse, VenueConstraints, Exchange}
use trading_challenge.Execution.Types.{Config, LegResult}
use trading_challenge.Execution.Orders.{emergency_unwind, attempt_loop, attempts}
use trading_challenge.Execution.Sizing.{Previous, is_below_minimum, order_qty, target_notional}
use trading_challenge.Execution.Executor.{
  abandon, record_leg, order_leg, execute_leg, execute_legs, has_drifted, execute,
}
use trading_challenge.Execution.Bounds.{
  counted, now-count, quote-count, unwind_loop-count, attempt_loop-count,
}

module _ {ℓ} {D : Type ℓ} where
  -- What the way out of the loop may add.
  abbrev reserve : Option (LegResult D) → ℕ
  reserve none = 4
  reserve (some r) = 0

module _ {ω ℓ κ} {W : Type ω} {D : Type ℓ} {F : Type κ} ⦃dec : Decimal D⦄ ⦃flt : Float64 F⦄
    ⦃conv : Convert D F⦄ (client : Exchange W D F) where
  emergency_unwind-count :
      (intent : TradeIntent F) (leg : TradeLeg F) (i : ℤ) (r : LegResult D) (s : ℕ × W)
      → (emergency_unwind (counted client) intent leg i r s).0.0 ≤ s.0 + 4
  unfolding emergency_unwind
  emergency_unwind-count intent leg i r s = unwind_loop-count client 4 0 intent leg i r s

  abandon-count :
      (intent : TradeIntent F) (previous : Previous D F) (s : ℕ × W)
      → (abandon (counted client) intent previous s).0.0 ≤ s.0 + 4
  unfolding abandon
  abandon-count intent none s = omega arith
  abandon-count intent (some (leg, i, r)) s = elim (Bool-cases r.filled) [
    | inl filled ↦ simp filled (emergency_unwind-count intent leg i r s)
    | inr unfilled ↦ rw unfilled (omega arith)
  ]

  has_drifted-count :
      (cfg : Config F) (previous : Previous D F) (s : ℕ × W)
      → (has_drifted (counted client) cfg previous s).0.0 ≡ s.0
  unfolding has_drifted counted
  has_drifted-count cfg none s = refl
  has_drifted-count cfg (some (leg, i, r)) s = elim (Bool-cases r.filled) [
    | inl filled ↦ rw filled refl
    | inr unfilled ↦ rw unfilled refl
  ]

  record_leg-count :
      (intent : TradeIntent F) (leg : TradeLeg F) (i : ℕ) (started : ℤ) (price : D) (target : F)
      (order : OrderResponse D) (s : ℕ × W)
      → (record_leg (counted client) intent leg i started price target order s).0.0 ≡ s.0
  unfolding record_leg counted
  record_leg-count intent leg i started price target order s = refl

  order_leg-count :
      (cfg : Config F) (intent : TradeIntent F) (previous : Previous D F) (leg : TradeLeg F) (i : ℕ)
      (started : ℤ) (vc : VenueConstraints F) (price : D) (s : ℕ × W)
      → let out = order_leg (counted client) cfg intent previous leg i started vc price s in
        out.0.0 ≤ s.0 + attempts cfg.max_retries_per_leg + reserve out.2
  unfolding order_leg
  order_leg-count cfg intent previous leg i started vc price s =
      let mid = conv.to_float price in
      let target = target_notional intent leg previous in
      let qty = order_qty vc target mid in
      let n = attempts cfg.max_retries_per_leg in
      let tried = attempt_loop (counted client) n 0 cfg intent vc leg i mid target qty s in
      let placed = attempt_loop-count client n 0 cfg intent vc leg i mid target qty s in
      let left = λ (s' : ℕ × W). abandon-count intent previous s' in
      elim (Bool-cases (is_below_minimum vc qty mid)) [
        | inl below ↦ rw (below, order_leg) (omega (arith, left s))
        | inr enough ↦ elim (Option-cases tried.2) [
          | inl failed ↦
              rw (enough, failed, order_leg)
                (omega
                  (arith, left ((counted client).now tried.0).0, now-count client tried.0, placed))
          | inr (order, taken) ↦
              rw (enough, taken, order_leg)
                (omega
                  (arith, record_leg-count intent leg i started price target order tried.0, placed))
        ]
      ]

  execute_leg-count :
      (cfg : Config F) (intent : TradeIntent F) (previous : Previous D F) (leg : TradeLeg F) (i : ℕ)
      (started : ℤ) (s : ℕ × W)
      → let out = execute_leg (counted client) cfg intent previous leg i started s in
        out.0.0 ≤ s.0 + attempts cfg.max_retries_per_leg + reserve out.2
  unfolding execute_leg
  execute_leg-count cfg intent previous leg i started s =
      let clock = (counted client).now s in
      let drift = has_drifted (counted client) cfg previous clock.0 in
      let given = (counted client).get_constraints linear leg.symbol drift.0 in
      let quoted = (counted client).get_ticker_price linear leg.symbol given.0 in
      let left = λ (s' : ℕ × W). abandon-count intent previous s' in
      let read = now-count client s in
      let tested = has_drifted-count cfg previous clock.0 in
      let priced = quote-count client linear leg.symbol drift.0 in
      elim (Bool-cases (lt_ℤ intent.expires_ms clock.1)) [
        | inl late ↦ rw (late, execute_leg) (omega (arith, left clock.0, read))
        | inr live ↦ elim (Bool-cases drift.1) [
          | inl drifted ↦
              rw (live, drifted, execute_leg)
                (omega (
                  arith,
                  left ((counted client).now drift.0).0,
                  now-count client drift.0,
                  tested,
                  read,
                ))
          | inr near ↦ elim (Option-cases quoted.1) [
            | inl silent ↦
                rw (live, near, silent, execute_leg)
                  (omega (arith, left quoted.0, priced, tested, read))
            | inr (price, said) ↦ elim (Bool-cases (is_zero price)) [
              | inl nothing ↦
                  rw (live, near, said, nothing, execute_leg)
                    (omega (arith, left quoted.0, priced, tested, read))
              | inr known ↦
                  rw (live, near, said, known, execute_leg)
                    (omega (
                      arith,
                      order_leg-count cfg intent previous leg i started _ price quoted.0,
                      priced,
                      tested,
                      read,
                    ))
            ]
          ]
        ]
      ]

  execute_legs-count :
      (cfg : Config F) (intent : TradeIntent F) (previous : Previous D F) (i : ℕ) (started : ℤ)
      (legs : List (TradeLeg F)) (s : ℕ × W)
      → (execute_legs (counted client) cfg intent previous i started legs s).0.0
        ≤ s.0 + length legs * attempts cfg.max_retries_per_leg + 4
  unfolding execute_legs
  execute_legs-count cfg intent previous i started [] s = omega arith
  execute_legs-count cfg intent previous i started (leg ∷ legs) s =
      let n = attempts cfg.max_retries_per_leg in
      let out = execute_leg (counted client) cfg intent previous leg i started s in
      let placed = execute_leg-count cfg intent previous leg i started s in
      let more : length (leg ∷ legs) * n ≡ length legs * n + n = suc-mul (length legs) n in
      elim (Option-cases out.2) [
        | inl stopped ↦
            let spent : out.0.0 ≤ s.0 + n + 4 = rw⁻¹ (ap reserve stopped) placed in
            rw (stopped, execute_legs) (omega (arith, spent, more))
        | inr (r, filled) ↦
            let spent : out.0.0 ≤ s.0 + n + 0 = rw⁻¹ (ap reserve filled) placed in
            let rest =
              execute_legs-count cfg intent (some (leg, pos i, r)) (i + 1) started legs out.0 in
            rw (filled, execute_legs) (omega (arith, spent, rest, more))
      ]

  -- Whatever the exchange answers, an execution places at most as many orders as its legs have attempts,
  -- and four more to unwind.
  pub execute-count :
      (cfg : Config F) (intent : TradeIntent F) (s : ℕ × W)
      → (execute (counted client) cfg intent s).0.0
        ≤ s.0 + length intent.legs * attempts cfg.max_retries_per_leg + 4
  unfolding execute
  execute-count cfg intent s =
      let clock = (counted client).now s in
      let run = execute_legs (counted client) cfg intent none 0 clock.1 intent.legs clock.0 in
      let placed = execute_legs-count cfg intent none 0 clock.1 intent.legs clock.0 in
      let read = now-count client s in
      elim (Bool-cases (lt_ℤ intent.expires_ms clock.1)) [
        | inl late ↦ rw (late, execute) (omega (arith, read))
        | inr live ↦ elim (Bool-cases (some_of (λ r. r.filled) run.2)) [
          | inl some_filled ↦
              rw (live, some_filled, execute) (omega (arith, now-count client run.0, placed, read))
          | inr none_filled ↦ rw (live, none_filled, execute) (omega (arith, placed, read))
        ]
      ]
