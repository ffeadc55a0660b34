-- ===== src/Execution/Orders.antt =====
-- internal/execution/executor.go: the calls of the exchange. `poll_order_status`, `emergency_unwind` and the
-- attempts at one leg, each with the number of rounds that are left.
use trading_challenge.Prelude.{
  ℕ, zero, suc, ◌+◌, ◌-◌, ◌*◌, ◌^◌, ltb, ◌==◌, Bool, true, false, ◌&&◌, ◌||◌, not, Option, none,
  some, List, [], ◌∷◌, String, str_eq, show_int, ◌<>◌, if◌then◌else◌, ℤ, pos, negsuc, lt_ℤ, add64,
  mul64, Decimal, is_positive, Float64, Convert,
}
use trading_challenge.Arb.{TradeLeg, TradeIntent}
use trading_challenge.Exchange.{
  side_buy, side_sell, OrderType, market, limit, ioc, OrderStatus, fresh, partially_filled, filled,
  unknown, Category, linear, OrderRequest, OrderResponse, VenueConstraints, round_price, Exchange,
}
use trading_challenge.Execution.Types.{
  EventType, order_sent, order_filled, order_retry, hedge_failed, ExecutionEvent, Config, LegResult,
  bare_event,
}

-- The statuses that end the polling.
unfoldable pub is_settled : OrderStatus → Bool
is_settled fresh = false
is_settled (unknown _) = false
is_settled _ = true

unfoldable pub is_filled : OrderStatus → Bool
is_filled filled = true
is_filled _ = false

unfoldable pub is_partial : OrderStatus → Bool
is_partial partially_filled = true
is_partial _ = false

unfoldable pub is_limit : OrderType → Bool
is_limit limit = true
is_limit _ = false

-- Milliseconds and seconds as a `time.Duration`.
pub ms : ℤ → ℤ
ms n = mul64 n (pos 1_000_000)

-- `attempt` goes from 0 to the number of retries, if that is not negative.
unfoldable pub attempts : ℤ → ℕ
attempts (pos n) = n + 1
attempts (negsuc _) = 0

unfoldable pub reverse_action : String → String
reverse_action action = if str_eq action "SELL" then side_buy else side_sell

module _ {ℓ} {D : Type ℓ} ⦃dec : Decimal D⦄ where
  abbrev pub is_done : Option (OrderResponse D) → Bool
  is_done none = false
  is_done (some resp) = is_filled resp.status

  -- An order is taken when it is filled, or filled in part.
  unfoldable pub is_taken : OrderResponse D → Bool
  unfolding is_filled is_partial
  is_taken resp = is_filled resp.status || (is_partial resp.status && is_positive resp.filled_qty)

module _ {ℓ} {F : Type ℓ} ⦃flt : Float64 F⦄ where
  -- The price of an attempt: wider with each, and the worst acceptable one for the last.
  unfoldable pub order_price : Config F → VenueConstraints F → TradeLeg F → F → ℕ → F
  unfolding round_price
  order_price cfg vc leg mid attempt =
      let frac =
        flt.div (flt.of_int (pos (attempt + 1)))
          (flt.of_int (add64 cfg.max_retries_per_leg (pos 1))) in
      let slip =
        if lt_ℤ (pos attempt) cfg.max_retries_per_leg
        then flt.div (flt.mul frac leg.max_slippage_bps) (flt.lit 10_000 0)
        else flt.div leg.max_slippage_bps (flt.lit 10_000 0) in
      if str_eq leg.action "BUY"
      then round_price vc (flt.mul mid (flt.add (flt.lit 1 0) slip))
      else round_price vc (flt.mul mid (flt.sub (flt.lit 1 0) slip))

  unfoldable pub order_type : Config F → ℕ → OrderType
  order_type cfg attempt = if lt_ℤ (pos attempt) cfg.max_retries_per_leg then limit else ioc

  -- An event of a leg of an intent.
  abbrev pub leg_event : EventType → TradeIntent F → TradeLeg F → ℕ → ℤ → ExecutionEvent F
  leg_event event_type intent leg i ts =
      record (bare_event event_type intent.intent_id intent.strategy (pos i) leg.symbol ts) {
        action = leg.action;
        market = leg.market;
      }

module _ {ℓ κ} {D : Type ℓ} {F : Type κ} ⦃dec : Decimal D⦄ ⦃flt : Float64 F⦄ where
  -- The market order that takes back what a leg has filled.
  unfoldable pub unwind_request :
      TradeIntent F → TradeLeg F → ℤ → ℕ → LegResult D → OrderRequest D F
  unfolding reverse_action
  unwind_request intent leg leg_index attempt result = record {
    category = result.category;
    symbol = result.symbol;
    side = reverse_action leg.action;
    type = market;
    quantity = result.filled_qty;
    price = dec.nought;
    notional_usd = dec.nought;
    max_slippage_bps = flt.lit 0 0;
    client_order_id =
        intent.intent_id <> "-unwind-l" <> show_int leg_index <> "-r" <> show_int (pos attempt);
    reduce_only = true;
    stop_loss = dec.nought;
    take_profit = dec.nought;
  }

module _ {ℓ κ} {D : Type ℓ} {F : Type κ} ⦃dec : Decimal D⦄ ⦃flt : Float64 F⦄
    ⦃conv : Convert D F⦄ where
  unfoldable pub leg_request :
      Config F
      → TradeIntent F
      → VenueConstraints F
      → TradeLeg F
      → ℕ
      → (mid target qty : F) → ℕ
      → OrderRequest D F
  unfolding order_price order_type
  leg_request cfg intent vc leg i mid target qty attempt = record {
    category = linear;
    symbol = leg.symbol;
    side = leg.action;
    type = order_type cfg attempt;
    quantity = conv.from_float qty;
    price = conv.from_float (order_price cfg vc leg mid attempt);
    notional_usd = conv.from_float target;
    max_slippage_bps = flt.lit 0 0;
    client_order_id =
        intent.intent_id <> "-l" <> show_int (pos i) <> "-r" <> show_int (pos attempt);
    reduce_only = false;
    stop_loss = dec.nought;
    take_profit = dec.nought;
  }

module _ {ω ℓ κ} {W : Type ω} {D : Type ℓ} {F : Type κ} (client : Exchange W D F) where
  -- One round waits, asks, and goes on after an error or an order that is still open.
  unfoldable pub poll_loop : ℕ → Category → String → String → W → W × Option (OrderResponse D)
  unfolding is_settled ms
  poll_loop zero cat symbol order_id w = (w, none)
  poll_loop (suc left) cat symbol order_id w =
      let (w₁, answer) = client.get_order cat symbol order_id (client.sleep (ms (pos 500)) w) in
      elim answer [
        | none ↦ poll_loop left cat symbol order_id w₁
        | some resp ↦ elim (is_settled resp.status) [
          | true ↦ (w₁, some resp)
          | false ↦ poll_loop left cat symbol order_id w₁
        ]
      ]

  unfoldable pub poll_order_status : Category → String → String → W → W × Option (OrderResponse D)
  poll_order_status = poll_loop 10

module _ {ω ℓ κ} {W : Type ω} {D : Type ℓ} {F : Type κ} ⦃dec : Decimal D⦄ ⦃flt : Float64 F⦄
    ⦃conv : Convert D F⦄ (client : Exchange W D F) where
  -- The attempts 0 to 3, with the waits of 1, 2 and 4 seconds between them. The result holds the events
  -- that are appended.
  unfoldable pub unwind_loop :
      ℕ → ℕ → TradeIntent F → TradeLeg F → ℤ → LegResult D → W → W × List (ExecutionEvent F)
  unfolding unwind_request poll_order_status is_filled
  unwind_loop zero attempt intent leg leg_index result w = (w, [])
  unwind_loop (suc left) attempt intent leg leg_index result w =
      let w₀ =
        if ltb 0 attempt then client.sleep (pos (2 ^ (attempt - 1) * 1_000_000_000)) w else w in
      let (w₁, answer) =
        client.place_order (unwind_request intent leg leg_index attempt result) w₀ in
      elim answer [
        | none ↦ elim (attempt == 3) [
          | false ↦ unwind_loop left (attempt + 1) intent leg leg_index result w₁
          | true ↦
              let (w₂, ts) = client.now w₁ in
              let (w₃, rest) = unwind_loop left (attempt + 1) intent leg leg_index result w₂ in
              (
                w₃,
                bare_event hedge_failed intent.intent_id intent.strategy leg_index result.symbol ts
                    ∷ rest,
              )
        ]
        | some resp ↦
            let (w₂, final) =
              poll_order_status client result.category result.symbol resp.order_id w₁ in
            elim (is_done final || not (ltb attempt 3)) [
              | false ↦ unwind_loop left (attempt + 1) intent leg leg_index result w₂
              | true ↦
                  let (w₃, ts) = client.now w₂ in
                  (
                    w₃,
                    record (bare_event (if is_done final then order_filled else hedge_failed)
                          intent.intent_id intent.strategy leg_index result.symbol ts) {
                            action = reverse_action leg.action;
                          }
                        ∷ [],
                  )
            ]
      ]

  unfoldable pub emergency_unwind :
      TradeIntent F → TradeLeg F → ℤ → LegResult D → W → W × List (ExecutionEvent F)
  emergency_unwind = unwind_loop 4 0

  -- The attempts at a leg: the order that was taken, if one was, and the events.
  unfoldable pub attempt_loop :
      ℕ
      → ℕ
      → Config F
      → TradeIntent F
      → VenueConstraints F
      → TradeLeg F
      → ℕ
      → (mid target qty : F) → W
      → W × List (ExecutionEvent F) × Option (OrderResponse D)
  unfolding leg_request poll_order_status is_taken is_limit ms
  attempt_loop zero attempt cfg intent vc leg i mid target qty w = (w, [], none)
  attempt_loop (suc left) attempt cfg intent vc leg i mid target qty w =
      let w₀ = if ltb 0 attempt then client.sleep (ms (mul64 (pos attempt) (pos 500))) w else w in
      let (w₁, ts) = client.now w₀ in
      let sent = record (leg_event order_sent intent leg i ts) {
        requested_notional_usd = target;
      } in
      let (w₂, answer) =
        client.place_order (leg_request cfg intent vc leg i mid target qty attempt) w₁ in
      elim answer [
        | none ↦ elim (lt_ℤ (pos attempt) cfg.max_retries_per_leg) [
          | true ↦
              let (w₃, ts') = client.now w₂ in
              let (w₄, events, taken) =
                attempt_loop left (attempt + 1) cfg intent vc leg i mid target qty w₃ in
              (w₄, sent ∷ leg_event order_retry intent leg i ts' ∷ events, taken)
          | false ↦
              let (w₄, events, taken) =
                attempt_loop left (attempt + 1) cfg intent vc leg i mid target qty w₂ in
              (w₄, sent ∷ events, taken)
        ]
        | some resp ↦
            let (w₃, polled) = poll_order_status client linear leg.symbol resp.order_id w₂ in
            let final : OrderResponse D = elim polled [ none ↦ resp | some r ↦ r ] in
            elim (is_taken final) [
              | true ↦ (w₃, sent ∷ [], some final)
              | false ↦
                  let w₄ =
                    if is_limit (order_type cfg attempt)
                    then client.cancel_order linear leg.symbol final.order_id w₃
                    else w₃ in
                  let (w₅, events, taken) =
                    attempt_loop left (attempt + 1) cfg intent vc leg i mid target qty w₄ in
                  (w₅, sent ∷ events, taken)
            ]
      ]
