-- ===== src/Execution/Router.antt =====
-- cmd/execution-router/main.go: the loop that reads the approved intents. Redis and the webhook are the
-- parameter Bus.
use trading_challenge.Prelude.{
  Bool, true, false, ◌||◌, Option, none, some, List, [], ◌∷◌, ◌++◌, String, str_eq, if◌then◌else◌,
  ℤ, pos, add64, some_of, Decimal, Float64, Convert,
}
use trading_challenge.Arb.{TradeIntent}
use trading_challenge.Exchange.{Exchange}
use trading_challenge.Execution.Types.{EventType, hedge_failed, ExecutionEvent, FillSummary, Config}
use trading_challenge.Execution.Executor.{execute}

-- `get_string` answers an error with the empty text, which is what the callers take of it. `read` gives the
-- messages of a batch, `none` for an error and for a message that does not decode.
pub record Bus {ω κ} (W : Type ω) (F : Type κ) : Type (ω ⊔ κ) where
  pub get_string : String → W → W × String
  pub read : W → W × Option (List (Option (TradeIntent F)))
  pub publish_event : ExecutionEvent F → W → W
  pub publish_fill : FillSummary F → W → W
  pub send_critical : String → W → W

-- The counters and the intents that were processed.
pub record Router : Type 0 where
  pub processed : List String
  pub executed : ℤ
  pub skipped : ℤ
  pub deduped : ℤ

abbrev pub new_router : Router
new_router = record { processed = []; executed = pos 0; skipped = pos 0; deduped = pos 0 }

unfoldable pub is_held : String → Bool
is_held mode = str_eq mode "HALTED" || str_eq mode "FLATTEN"

abbrev pub listed : Option String → List String
listed none = []
listed (some id) = id ∷ []

unfoldable pub is_event_failure : EventType → Bool
is_event_failure hedge_failed = true
is_event_failure _ = false

module _ {ω κ} {W : Type ω} {F : Type κ} (bus : Bus W F) where
  -- The gates: the risk mode, then the circuit breaker. `true` is a closed gate.
  unfoldable pub is_blocked : W → W × Bool
  is_blocked w =
      let (w₁, mode) = bus.get_string "risk:mode" w in
      elim (is_held mode) [
        | true ↦ (w₁, true)
        | false ↦
            let (w₂, state) = bus.get_string "circuit_breaker:open" w₁ in (w₂, str_eq state "true")
      ]

  unfoldable pub publish_events : List (ExecutionEvent F) → W → W
  publish_events [] w = w
  publish_events (e ∷ events) w = publish_events events (bus.publish_event e w)

  unfoldable pub report : TradeIntent F → List (ExecutionEvent F) → Option (FillSummary F) → W → W
  unfolding publish_events some_of is_event_failure
  report intent events fill w =
      let w₁ = publish_events events w in
      let w₂ : W = elim fill [ none ↦ w₁ | some f ↦ bus.publish_fill f w₁ ] in
      if some_of (λ e. is_event_failure e.event_type) events
      then bus.send_critical intent.intent_id w₂
      else w₂

module _ {ω ℓ κ} {W : Type ω} {D : Type ℓ} {F : Type κ} ⦃dec : Decimal D⦄ ⦃flt : Float64 F⦄
    ⦃conv : Convert D F⦄ (bus : Bus W F) (client : Exchange W D F) where
  -- An intent of a batch, with the id of the intent if it was executed.
  unfoldable pub handle :
      Config F → Option (TradeIntent F) → Router → W → W × Router × Option String
  unfolding is_blocked some_of report
  handle cfg none router w = (w, router, none)
  handle cfg (some intent) router w =
      let (w₁, blocked) = is_blocked bus w in
      elim blocked [
        | true ↦ (w₁, record router { skipped = add64 router.skipped (pos 1) }, none)
        | false ↦ elim (some_of (str_eq intent.intent_id) router.processed) [
          | true ↦ (w₁, record router { deduped = add64 router.deduped (pos 1) }, none)
          | false ↦
              let (w₂, events, fill) = execute client cfg intent w₁ in
              (
                report bus intent events fill w₂,
                record router {
                  processed = intent.intent_id ∷ router.processed;
                  executed = add64 router.executed (pos 1);
                },
                some intent.intent_id,
              )
        ]
      ]

  -- A batch, with the ids of the intents that were executed.
  unfoldable pub handle_all :
      Config F → List (Option (TradeIntent F)) → Router → W → W × Router × List String
  unfolding handle
  handle_all cfg [] router w = (w, router, [])
  handle_all cfg (message ∷ messages) router w =
      let (w₁, router₁, id) = handle cfg message router w in
      let (w₂, router₂, ids) = handle_all cfg messages router₁ w₁ in (w₂, router₂, listed id ++ ids)

  -- A tick of the poll ticker.
  unfoldable pub poll : Config F → Router → W → W × Router × List String
  unfolding is_blocked handle_all
  poll cfg router w =
      let (w₁, blocked) = is_blocked bus w in
      elim blocked [
        | true ↦ (w₁, router, [])
        | false ↦
            let (w₂, batch) = bus.read w₁ in
            elim batch [
              | none ↦ (w₂, router, [])
              | some messages ↦ handle_all cfg messages router w₂
            ]
      ]
