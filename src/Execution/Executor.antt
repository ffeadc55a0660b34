-- ===== src/Execution/Executor.antt =====
-- internal/execution/executor.go: `Execute`. A step that ends
-- the loop over the legs (`break`) has no result; what was filled before it is then taken back.
use trading_challenge.Prelude.{
  ℕ, ◌+◌, Bool, true, false, Option, none, some, List, [], ◌∷◌, ◌++◌, map, some_of, if◌then◌else◌,
  ℤ, pos, lt_ℤ, sub64, Decimal, is_zero, Float64, Convert,
}
use trading_challenge.Arb.{TradeLeg, TradeIntent}
use trading_challenge.Exchange.{linear, OrderResponse, VenueConstraints, Exchange}
use trading_challenge.Execution.Types.{
  order_filled, order_partial, order_rejected, hedge_drift, ExecutionEvent, FillSummary, Config,
  LegResult, no_result, bare_event,
}
use trading_challenge.Execution.Orders.{
  is_partial, emergency_unwind, leg_event, attempt_loop, attempts,
}
use trading_challenge.Execution.Sizing.{
  Previous, fallback_constraints, order_qty, is_below_minimum, target_notional,
}
use trading_challenge.Execution.Summary.{summarise}

-- A leg, or the way out of the loop: the events, and the result if the leg was filled.
abbrev pub Outcome {ω ℓ κ} : Type ω → Type ℓ → Type κ → Type (ω ⊔ ℓ ⊔ κ)
Outcome W D F = W × List (ExecutionEvent F) × Option (LegResult D)

module _ {ω ℓ κ} {W : Type ω} {D : Type ℓ} {F : Type κ} ⦃dec : Decimal D⦄ ⦃flt : Float64 F⦄
    ⦃conv : Convert D F⦄ (client : Exchange W D F) where
  -- What is done before the loop is left: a leg that was filled before is unwound.
  unfoldable pub abandon : TradeIntent F → Previous D F → W → W × List (ExecutionEvent F)
  abandon intent none w = (w, [])
  abandon intent (some (leg, i, r)) w =
      if r.filled then emergency_unwind client intent leg i r w else (w, [])

  -- Too much time has passed since the leg before was filled. The clock is read only if it was.
  unfoldable pub has_drifted : Config F → Previous D F → W → W × Bool
  has_drifted cfg none w = (w, false)
  has_drifted cfg (some (leg, i, r)) w =
      if r.filled
      then (let (w₁, ts) = client.now w in
          (w₁, lt_ℤ cfg.hedge_drift_max_ms (sub64 ts r.fill_ts_ms)))
      else (w, false)

  -- The result and the event of an order that was taken.
  unfoldable pub record_leg :
      TradeIntent F
      → TradeLeg F
      → ℕ
      → (started : ℤ) → (price : D) → (target : F) → OrderResponse D
      → W
      → W × ExecutionEvent F × LegResult D
  unfolding is_partial
  record_leg intent leg i started price target order w =
      let mid = conv.to_float price in
      let fill_price = if is_zero order.avg_fill_price then price else order.avg_fill_price in
      let filled_notional = dec.mul order.filled_qty fill_price in
      let partial = is_partial order.status in
      let (w₁, fill_ts) = client.now w in
      let (w₂, ts) = client.now w₁ in
      let (w₃, ended) = client.now w₂ in
      (
        w₃,
        record (leg_event (if partial then order_partial else order_filled) intent leg i ts) {
          requested_notional_usd = target;
          filled_notional_usd = conv.to_float filled_notional;
          filled_price = conv.to_float fill_price;
          slippage_bps_actual =
              flt.mul (flt.div (flt.abs (flt.sub (conv.to_float fill_price) mid)) mid)
                (flt.lit 10_000 0);
          fees_usd_actual = conv.to_float order.fees_usd;
          latency_ms = sub64 ended started;
        },
        record {
          filled = true;
          filled_qty = order.filled_qty;
          filled_usd = filled_notional;
          fill_price = fill_price;
          fees_usd = order.fees_usd;
          order_id = order.order_id;
          symbol = leg.symbol;
          category = linear;
          partial = partial;
          fill_ts_ms = fill_ts;
        },
      )

  -- Out of the loop, with these events before those of the unwinding.
  abbrev pub give_up : TradeIntent F → Previous D F → List (ExecutionEvent F) → W → Outcome W D F
  give_up intent previous events w =
      let (w', unwound) = abandon intent previous w in (w', events ++ unwound, none)

  -- The order of a leg whose price is known.
  unfoldable pub order_leg :
      Config F
      → TradeIntent F
      → Previous D F
      → TradeLeg F
      → ℕ
      → (started : ℤ) → VenueConstraints F
      → D
      → W
      → Outcome W D F
  unfolding target_notional order_qty is_below_minimum attempts record_leg
  order_leg cfg intent previous leg i started vc price w =
      let mid = conv.to_float price in
      let target = target_notional intent leg previous in
      let qty = order_qty vc target mid in
      elim (is_below_minimum vc qty mid) [
        | true ↦ give_up intent previous [] w
        | false ↦
            let (w₁, events, taken) =
              attempt_loop client (attempts cfg.max_retries_per_leg) 0 cfg intent vc leg i mid
                target qty w in
            elim taken [
              | none ↦
                  let (w₂, ts) = client.now w₁ in
                  give_up intent previous
                    (events ++ (leg_event order_rejected intent leg i ts ∷ [])) w₂
              | some order ↦
                  let (w₂, event, r) = record_leg intent leg i started price target order w₁ in
                  (w₂, events ++ (event ∷ []), some r)
            ]
      ]

  unfoldable pub execute_leg :
      Config F → TradeIntent F → Previous D F → TradeLeg F → ℕ → (started : ℤ) → W → Outcome W D F
  unfolding has_drifted order_leg
  execute_leg cfg intent previous leg i started w =
      let (w₁, ts) = client.now w in
      elim (lt_ℤ intent.expires_ms ts) [
        | true ↦ give_up intent previous [] w₁
        | false ↦
            let (w₂, drifted) = has_drifted cfg previous w₁ in
            elim drifted [
              | true ↦
                  let (w₃, ts') = client.now w₂ in
                  give_up intent previous
                    (bare_event hedge_drift intent.intent_id intent.strategy (pos i) leg.symbol ts'
                      ∷ [])
                    w₃
              | false ↦
                  let (w₃, given) = client.get_constraints linear leg.symbol w₂ in
                  let vc : VenueConstraints F = elim given [
                    | none ↦ fallback_constraints leg.symbol
                    | some c ↦ c
                  ] in
                  let (w₄, quoted) = client.get_ticker_price linear leg.symbol w₃ in
                  elim quoted [
                    | none ↦ give_up intent previous [] w₄
                    | some price ↦ elim (is_zero price) [
                      | true ↦ give_up intent previous [] w₄
                      | false ↦ order_leg cfg intent previous leg i started vc price w₄
                    ]
                  ]
            ]
      ]

  -- The loop over the legs. The results of the legs that are not reached stay zero.
  unfoldable pub execute_legs :
      Config F
      → TradeIntent F
      → Previous D F
      → ℕ
      → (started : ℤ) → List (TradeLeg F)
      → W
      → W × List (ExecutionEvent F) × List (LegResult D)
  unfolding execute_leg
  execute_legs cfg intent previous i started [] w = (w, [], [])
  execute_legs cfg intent previous i started (leg ∷ legs) w =
      let (w₁, events, filled) = execute_leg cfg intent previous leg i started w in
      elim filled [
        | none ↦ (w₁, events, no_result ∷ map (λ _. no_result) legs)
        | some r ↦
            let (w₂, more, results) =
              execute_legs cfg intent (some (leg, pos i, r)) (i + 1) started legs w₁ in
            (w₂, events ++ more, r ∷ results)
      ]

  -- The reconciliation that `Execute` starts in the background is `reconcile_fills`.
  unfoldable pub execute :
      Config F → TradeIntent F → W → W × List (ExecutionEvent F) × Option (FillSummary F)
  unfolding execute_legs summarise some_of
  execute cfg intent w =
      let (w₁, started) = client.now w in
      elim (lt_ℤ intent.expires_ms started) [
        | true ↦ (w₁, [], none)
        | false ↦
            let (w₂, events, results) = execute_legs cfg intent none 0 started intent.legs w₁ in
            let (w₃, ts) = client.now w₂ in
            if some_of (λ r. r.filled) results
            then (w₃, events, some (summarise intent results ts))
            else (w₂, events, none)
      ]
