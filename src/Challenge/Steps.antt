-- ===== src/Challenge/Steps.antt =====
-- Sequences of calls of the daemon's methods, in any order and with any arguments.
use trading_challenge.Prelude.{
  ◌≡◌, inl, inr, true, some, List, [], ◌∷◌, All, arith, String, Time, Decimal, Convert, IsField,
  Option-cases,
}
use trading_challenge.Arb.{TradeIntent}
use trading_challenge.Challenge.Config.{Config}
use trading_challenge.Challenge.Rules.{RuleError}
use trading_challenge.Challenge.Daemon.{
  Daemon, new_daemon, reset_daily_if_needed, update_equity, record_trade, track_position,
  confirm_stop_loss, confirm_paired_stop_loss, close_position, reset,
}
use trading_challenge.Challenge.Intent.{challenge_halted, validate_intent}
use trading_challenge.Challenge.Invariant.{
  Inv, new_daemon-Inv, reset_daily-Inv, update_equity-Inv, record_trade-Inv, track_position-Inv,
  close_position-Inv, reset-Inv,
}
use trading_challenge.Challenge.Exposure.{confirm_stop_loss-Inv, confirm_paired-Inv}

-- A call of a method that changes the state.
pub data Call {ℓ κ} (D : Type ℓ) (F : Type κ) : Type (ℓ ⊔ κ) where
  update : Time → D → Call D F
  record_closed : Time → D → Call D F
  track : Time → String → D → D → Call D F
  confirm : Time → String → Call D F
  confirm_pair : Time → Time → String → String → Call D F
  close : String → Call D F
  check : Time → Time → TradeIntent F → Call D F
  clear : Call D F

-- Any call but the operator's `Reset`.
abbrev pub IsAutomatic {ℓ κ} : {D : Type ℓ} {F : Type κ} → Call D F → Type 0
IsAutomatic clear = ⊥
IsAutomatic _ = Unit

module _ {ℓ κ} {D : Type ℓ} {F : Type κ} ⦃dec : Decimal D⦄ ⦃conv : Convert D F⦄ where
  unfoldable pub step : Call D F → Daemon D → Daemon D
  step (update now equity) d = (update_equity now equity d).0
  step (record_closed now pnl) d = (record_trade now pnl d).0
  step (track now symbol notional margin) d = track_position now symbol notional margin d
  step (confirm now symbol) d = confirm_stop_loss now symbol d
  step (confirm_pair now later primary hedge) d = confirm_paired_stop_loss now later primary hedge d
  step (close symbol) d = close_position symbol d
  step (check now later intent) d = (validate_intent now later intent d).0
  step clear d = reset d

  unfoldable pub run : List (Call D F) → Daemon D → Daemon D
  unfolding step
  run [] d = d
  run (c ∷ cs) d = run cs (step c d)

  validate_intent_state :
      (now later : Time) (intent : TradeIntent F) (d : Daemon D)
      → (validate_intent now later intent d).0 ≡ reset_daily_if_needed now d
  unfolding validate_intent
  validate_intent_state now later intent d = ground arith

  module _ (laws : IsField D) where
    step-Inv : (c : Call D F) {d : Daemon D} → Inv d → Inv (step c d)
    unfolding step
    step-Inv (update now equity) v = update_equity-Inv laws now equity v
    step-Inv (record_closed now pnl) v = record_trade-Inv laws now pnl v
    step-Inv (track now symbol notional margin) v =
        track_position-Inv laws now symbol notional margin v
    step-Inv (confirm now symbol) v = confirm_stop_loss-Inv now symbol v
    step-Inv (confirm_pair now later primary hedge) v = confirm_paired-Inv now later primary hedge v
    step-Inv (close symbol) v = close_position-Inv laws symbol v
    step-Inv (check now later intent) {d} v =
        rw (validate_intent_state now later intent d) (reset_daily-Inv laws now v)
    step-Inv clear v = reset-Inv laws v

    pub run-Inv : (cs : List (Call D F)) {d : Daemon D} → Inv d → Inv (run cs d)
    unfolding run
    run-Inv [] v = v
    run-Inv (c ∷ cs) v = run-Inv cs (step-Inv c v)

    -- Under the laws of decimals, whatever calls are made of a new daemon, in any order: the equity
    -- is at most the daily high-water mark, profit and loss are not negative, today counts as a
    -- trading day if a trade was recorded today, a halt has its reason, and the exposure totals are
    -- those of the open positions.
    pub new_daemon-run-Inv :
        (now : Time) (cfg : Config D) (cs : List (Call D F)) → Inv (run cs (new_daemon now cfg))
    new_daemon-run-Inv now cfg cs = run-Inv cs (new_daemon-Inv laws now cfg)

  step-halted :
      (c : Call D F) (d : Daemon D) → IsAutomatic c → d.halted ≡ true → (step c d).halted ≡ true
  unfolding step
  step-halted (update now equity) d a h = unfold update_equity in ground arith
  step-halted (record_closed now pnl) d a h = unfold record_trade in ground arith
  step-halted (track now symbol notional margin) d a h = unfold track_position in ground arith
  step-halted (confirm now symbol) d a h = unfold confirm_stop_loss in ground arith
  step-halted (confirm_pair now later primary hedge) d a h =
      unfold confirm_paired_stop_loss in ground arith
  step-halted (close symbol) d a h = unfold close_position in ground arith
  step-halted (check now later intent) d a h =
      rw (validate_intent_state now later intent d) (unfold reset_daily_if_needed in ground arith)
  step-halted clear d a h = absurd a

  run-halted :
      (cs : List (Call D F)) (d : Daemon D)
      → All IsAutomatic cs
      → d.halted ≡ true
      → (run cs d).halted ≡ true
  unfolding run
  run-halted [] d a h = h
  run-halted (c ∷ cs) d (a, rest) h = run-halted cs (step c d) rest (step-halted c d a h)

  validate_halted :
      (now later : Time) (intent : TradeIntent F) (d : Daemon D)
      → d.halted ≡ true
      → (validate_intent now later intent d).1 ≡ some (challenge_halted d.halted_reason)
  unfolding validate_intent reset_daily_if_needed
  validate_halted now later intent d h = ground arith

  -- Under the laws of decimals: once a daemon that satisfies the invariant is halted, it refuses
  -- every intent with the halt as its error, and with a reason, after any calls but the operator's
  -- reset.
  pub halted_refuses :
      (laws : IsField D) (cs : List (Call D F)) (d : Daemon D) (now later : Time)
      (intent : TradeIntent F)
      → Inv d
      → d.halted ≡ true
      → All IsAutomatic cs
      → (e : RuleError D) × ((validate_intent now later intent (run cs d)).1
          ≡ some (challenge_halted (some e)))
  halted_refuses laws cs d now later intent v h a =
      let d' = run cs d in
      let h' = run-halted cs d a h in
      elim (Option-cases d'.halted_reason) [
        | inl none_given ↦ absurd ((run-Inv laws cs v).halt_explained h' none_given)
        | inr (e, given) ↦ (e, rw (← given) (validate_halted now later intent d' h'))
      ]
