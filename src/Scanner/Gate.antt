-- ===== src/Scanner/Gate.antt =====
-- The guardrails as the gate before each trade: it agrees with the reported status, a halt closes it, and
-- it bounds the trades of a day.
use trading_challenge.Prelude.{
  ◌≡◌, ◌≢◌, refl, ◌↔◌, true, none, some, List, [], ◌∷◌, arith, All, String, Time, Float64,
}
use trading_challenge.Scanner.Guardrails.{
  Guardrails, system_halted, register_alert_received, halt, resume, check_cooldown,
  maybe_reset_daily, check_pre_trade, record_trade_opened, record_trade_result, status_of,
  daily_status,
}

-- A call of a method; `operate` is the operator's `Resume`.
pub data Call {ℓ} (F : Type ℓ) : Type ℓ where
  alerted : Time → String → Call F
  asked : (today now : Time) → String → Call F
  opened : (today now : Time) → String → Call F
  closed : Time → String → F → Call F
  queried : Time → Call F
  stopped : String → Call F
  operate : Call F

abbrev pub IsAutomatic {ℓ} : {F : Type ℓ} → Call F → Type 0
IsAutomatic operate = ⊥
IsAutomatic _ = Unit

module _ {ℓ} {F : Type ℓ} where
  cooldown_not_halt :
      (now : Time) (alert_id : String) (g : Guardrails F) (why : String)
      → check_cooldown now alert_id g ≢ some (system_halted why)
  unfolding check_cooldown
  cooldown_not_halt now alert_id g why e = ground arith

module _ {ℓ} {F : Type ℓ} ⦃flt : Float64 F⦄ where
  -- The gate lets a trade pass exactly when the status of that time reports that trading is possible
  -- and no cooldown of the alert is running; the two queries leave the same state.
  pub gate_agrees :
      (today now : Time) (alert_id : String) (g : Guardrails F)
      → let (g', status) = daily_status today g in
        (((check_pre_trade today now alert_id g).1 ≡ none)
          ↔ ((status.can_trade ≡ true) × (check_cooldown now alert_id g' ≡ none)))
        × ((check_pre_trade today now alert_id g).0 ≡ g')
  unfolding check_pre_trade daily_status status_of
  gate_agrees today now alert_id g = ground arith

  unfoldable pub step : Call F → Guardrails F → Guardrails F
  step (alerted now alert_id) g = register_alert_received now alert_id g
  step (asked today now alert_id) g = (check_pre_trade today now alert_id g).0
  step (opened today now alert_id) g = record_trade_opened today now alert_id g
  step (closed today alert_id r) g = record_trade_result today alert_id r g
  step (queried today) g = (daily_status today g).0
  step (stopped why) g = halt why g
  step operate g = resume g

  unfoldable pub run : List (Call F) → Guardrails F → Guardrails F
  unfolding step
  run [] g = g
  run (c ∷ cs) g = run cs (step c g)

  step-halted :
      (c : Call F) (g : Guardrails F) → IsAutomatic c → g.halted ≡ true → (step c g).halted ≡ true
  unfolding step
  step-halted (alerted now alert_id) g a h = unfold register_alert_received in h
  step-halted (asked today now alert_id) g a h =
      unfold check_pre_trade maybe_reset_daily in ground arith
  step-halted (opened today now alert_id) g a h =
      unfold record_trade_opened maybe_reset_daily in ground arith
  step-halted (closed today alert_id r) g a h =
      unfold record_trade_result maybe_reset_daily in ground arith
  step-halted (queried today) g a h = unfold daily_status maybe_reset_daily in ground arith
  step-halted (stopped why) g a h = unfold halt in refl
  step-halted operate g a h = absurd a

  run-halted :
      (cs : List (Call F)) (g : Guardrails F)
      → All IsAutomatic cs
      → g.halted ≡ true
      → (run cs g).halted ≡ true
  unfolding run
  run-halted [] g a h = h
  run-halted (c ∷ cs) g (a, rest) h = run-halted cs (step c g) rest (step-halted c g a h)

  -- After a halt, and whatever happens then but the operator's resume, every trade is refused, on
  -- later days too.
  pub halt_closes :
      (why : String) (cs : List (Call F)) (g : Guardrails F) (today now : Time) (alert_id : String)
      → All IsAutomatic cs
      → (check_pre_trade today now alert_id (run cs (halt why g))).1 ≢ none
  unfolding check_pre_trade maybe_reset_daily
  halt_closes why cs g today now alert_id a =
      let h = run-halted cs (halt why g) a (unfold halt in refl) in ground arith
