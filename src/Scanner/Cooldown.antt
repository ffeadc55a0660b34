-- ===== src/Scanner/Cooldown.antt =====
-- internal/scanner/engine.go: what may be alerted, and the cooldown of a symbol over many scans.
use trading_challenge.Prelude.{
  Bool, true, false, Option, some, some_inj, ◌>>=◌, >>=_inv, List, [], ◌∷◌, ◌++◌, some_of,
  some_of-append_false, All, String, str_eq, ℤ, pos, lt_ℤ, sub64, lookup, Float64, unix_milli, ◌≡◌,
  refl, sym, ap, ◌∙◌, inl, inr, arith, eq_iff, Bool-cases,
}
use trading_challenge.Scanner.Types.{Candle, SignalAlert}
use trading_challenge.Scanner.Market.{FundingSnapshot, OpenInterestSnapshot, MarketState}
use trading_challenge.Scanner.Guardrails.{Guardrails, daily_status}
use trading_challenge.Scanner.Engine.{
  EngineConfig, Engine, update_state, update_market_state, update_candles, update_funding_history,
  update_oi_history, update_account_balance,
}
use trading_challenge.Scanner.Scoring.{Surroundings}
use trading_challenge.Scanner.Scan.{cools, is_cooling, scan}
use trading_challenge.Scanner.Tracker.{OutcomeTracker}
use trading_challenge.Scanner.Alerts.{scan-Emits}
use trading_challenge.Scanner.Emission.{IsAdmitted}

-- What happens to an engine: the updates and the scans, and the calls that its users make of the tracker and
-- the guardrails, which leave these in any state.
pub data Call {ℓ} (F : Type ℓ) : Type ℓ where
  market : String → (price bid ask mark_price volume_24h funding_rate : F) → (ts_ms : ℤ) → Call F
  candles : String → (tf : String) → List (Candle F) → Call F
  funding_history : String → List (FundingSnapshot F) → Call F
  oi_history : String → List (OpenInterestSnapshot F) → Call F
  balance : F → Call F
  used : OutcomeTracker F → Guardrails F → Call F
  scanned : Surroundings → Call F

-- A scan that starts within a time after another.
abbrev pub IsSoon {ℓ} : {F : Type ℓ} → (since cooldown : ℤ) → Call F → Type 0
IsSoon since cooldown (scanned around) =
    lt_ℤ (sub64 (unix_milli around.start) since) cooldown ≡ true
IsSoon since cooldown _ = Unit {0}

module _ {ℓ} {F : Type ℓ} ⦃flt : Float64 F⦄ where
  -- Each alert of a scan is one that the engine may give in its state before the scan, and the guardrails
  -- report that trading is possible. The cooldown of the symbols is positive; no float is less than itself.
  pub scan-IsAdmitted :
      (lt_irrefl : (x : F) → flt.lt x x ≡ false) (around : Surroundings) (e : Engine F)
      (r : Engine F × List (SignalAlert F))
      → lt_ℤ (pos 0) e.cfg.cooldown_per_symbol_ms ≡ true
      → scan around e ≡ some r
      → All
          (λ a.
            IsAdmitted (unix_milli around.start) e a
            × ((daily_status around.daily e.guard).1.can_trade ≡ true))
          r.1
  scan-IsAdmitted lt_irrefl around e r positive h =
      (scan-Emits lt_irrefl around e r positive h).admitted

  unfoldable pub step : Call F → Engine F → Option (Engine F × List (SignalAlert F))
  step (market symbol price bid ask mark_price volume_24h funding_rate ts_ms) e =
      some (update_market_state symbol price bid ask mark_price volume_24h funding_rate ts_ms e, [])
  step (candles symbol tf list) e = some (update_candles symbol tf list e, [])
  step (funding_history symbol list) e = some (update_funding_history symbol list e, [])
  step (oi_history symbol list) e = some (update_oi_history symbol list e, [])
  step (balance amount) e = some (update_account_balance amount e, [])
  step (used tracker guard) e = some (record e { tracker = tracker; guard = guard }, [])
  step (scanned around) e = scan around e

  -- The engine after the calls, and all the alerts that they gave.
  unfoldable pub run : List (Call F) → Engine F → Option (Engine F × List (SignalAlert F))
  unfolding step
  run [] e = some (e, [])
  run (call ∷ calls) e =
      step call e >>= λ first. run calls first.0 >>= λ rest. some (rest.0, first.1 ++ rest.1)

  -- Some alert is for the symbol.
  abbrev pub alerts_for : String → List (SignalAlert F) → Bool
  alerts_for symbol alerts = some_of (λ (a : SignalAlert F). str_eq a.symbol symbol) alerts

  -- The symbol was alerted at a time, under a configuration.
  record IsMarked (symbol : String) (since : ℤ) (cfg : EngineConfig F) (e : Engine F) : Type ℓ where
    pub configured : e.cfg ≡ cfg
    pub marked : lookup symbol e.last_alert ≡ some since

  update_state-IsMarked :
      (symbol : String) (since : ℤ) (cfg : EngineConfig F) (other : String)
      (change : MarketState F → MarketState F) (e : Engine F)
      → IsMarked symbol since cfg e
      → IsMarked symbol since cfg (update_state other change e)
  unfolding update_state
  update_state-IsMarked symbol since cfg other change e m = ground arith

  admitted_others :
      (symbol : String) (now : ℤ) (e : Engine F) (P : Type 0) (alerts : List (SignalAlert F))
      → is_cooling symbol now e ≡ true
      → All (λ a. IsAdmitted now e a × P) alerts
      → alerts_for symbol alerts ≡ false
  unfolding some_of
  admitted_others symbol now e P [] cooling _ = refl
  admitted_others symbol now e P (a ∷ alerts) cooling ((x, _), xs) =
      elim (Bool-cases (str_eq a.symbol symbol)) [
        | inl same ↦
            let rested : is_cooling symbol now e ≡ false =
              ap (λ s. is_cooling s now e) (sym ((eq_iff a.symbol symbol).0 same)) ∙ x.rested in
            cc
        | inr apart ↦ rw apart (admitted_others symbol now e P alerts cooling xs)
      ]

  remembered_at :
      (symbol : String) (now : ℤ) (e : Engine F) (alerts : List (SignalAlert F))
      → All (λ (a : SignalAlert F). lookup a.symbol e.last_alert ≡ some now) alerts
      → alerts_for symbol alerts ≡ true
      → lookup symbol e.last_alert ≡ some now
  unfolding some_of
  remembered_at symbol now e [] _ h = cc
  remembered_at symbol now e (a ∷ alerts) (x, xs) h = elim (Bool-cases (str_eq a.symbol symbol)) [
    | inl same ↦ ap (λ s. lookup s e.last_alert) (sym ((eq_iff a.symbol symbol).0 same)) ∙ x
    | inr apart ↦ remembered_at symbol now e alerts xs (rw apart at h)
  ]

  module _ (lt_irrefl : (x : F) → flt.lt x x ≡ false) (symbol : String) (since : ℤ)
      (cfg : EngineConfig F) (positive : lt_ℤ (pos 0) cfg.cooldown_per_symbol_ms ≡ true) where
    -- A call within the cooldown gives no alert for the symbol, and leaves its mark.
    abbrev Keeps : Engine F × List (SignalAlert F) → Type ℓ
    Keeps r = IsMarked symbol since cfg r.0 × (alerts_for symbol r.1 ≡ false)

    scan-Keeps :
        (around : Surroundings) (e : Engine F) (r : Engine F × List (SignalAlert F))
        → IsMarked symbol since cfg e
        → lt_ℤ (sub64 (unix_milli around.start) since) cfg.cooldown_per_symbol_ms ≡ true
        → scan around e ≡ some r
        → Keeps r
    unfolding is_cooling cools
    scan-Keeps around e r m soon h =
        let now = unix_milli around.start in
        let x =
          scan-Emits lt_irrefl around e r
            (ap (λ c. lt_ℤ (pos 0) c.cooldown_per_symbol_ms) m.configured ∙ positive) h in
        let cooling : is_cooling symbol now e ≡ true =
          ap (cools now e.cfg.cooldown_per_symbol_ms) m.marked
          ∙ ap (λ c. lt_ℤ (sub64 now since) c.cooldown_per_symbol_ms) m.configured
          ∙ soon in
        let quiet : alerts_for symbol r.1 ≡ false =
          admitted_others symbol now e _ r.1 cooling x.admitted in
        (
          record {
            configured = x.follows.cfg ∙ m.configured;
            marked = x.others symbol quiet ∙ m.marked;
          },
          quiet,
        )

    step-Keeps :
        (call : Call F) (e : Engine F) (r : Engine F × List (SignalAlert F))
        → IsMarked symbol since cfg e
        → IsSoon since cfg.cooldown_per_symbol_ms call
        → step call e ≡ some r
        → Keeps r
    unfolding step update_market_state update_candles update_funding_history update_oi_history
        update_account_balance some_of
    step-Keeps (market s price bid ask mark_price volume_24h funding_rate ts_ms) e r m soon h =
        rw⁻¹ (some_inj h) (update_state-IsMarked symbol since cfg s _ e m, refl)
    step-Keeps (candles s tf list) e r m soon h =
        rw⁻¹ (some_inj h) (update_state-IsMarked symbol since cfg s _ e m, refl)
    step-Keeps (funding_history s list) e r m soon h =
        rw⁻¹ (some_inj h) (update_state-IsMarked symbol since cfg s _ e m, refl)
    step-Keeps (oi_history s list) e r m soon h =
        rw⁻¹ (some_inj h) (update_state-IsMarked symbol since cfg s _ e m, refl)
    step-Keeps (balance amount) e r m soon h =
        rw⁻¹ (some_inj h) (record { configured = m.configured; marked = m.marked }, refl)
    step-Keeps (used tracker guard) e r m soon h =
        rw⁻¹ (some_inj h) (record { configured = m.configured; marked = m.marked }, refl)
    step-Keeps (scanned around) e r m soon h = scan-Keeps around e r m soon h

    run-Keeps :
        (calls : List (Call F)) (e : Engine F) (r : Engine F × List (SignalAlert F))
        → IsMarked symbol since cfg e
        → All (IsSoon since cfg.cooldown_per_symbol_ms) calls
        → run calls e ≡ some r
        → Keeps r
    unfolding run some_of
    run-Keeps [] e r m _ h = rw⁻¹ (some_inj h) (m, refl)
    run-Keeps (call ∷ calls) e r m (soon, later) h =
        let (first, known, h₁) = >>=_inv (step call e) _ h in
        let (rest, known₁, h₂) = >>=_inv (run calls first.0) _ h₁ in
        let (m₁, quiet) = step-Keeps call e first m soon known in
        let (m₂, silent) = run-Keeps calls first.0 rest m₁ later known₁ in
        rw⁻¹ (some_inj h₂) (m₂, some_of-append_false _ first.1 rest.1 quiet silent)

  -- Once a scan has given an alert for a symbol, no scan that starts within the cooldown gives another for it,
  -- whatever updates and scans there are in between and whatever is done to the tracker and the guardrails. The
  -- cooldown is positive; no float is less than itself.
  pub cooldown_holds :
      (lt_irrefl : (x : F) → flt.lt x x ≡ false) (symbol : String) (around : Surroundings)
      (e : Engine F) (r r' : Engine F × List (SignalAlert F)) (calls : List (Call F))
      → lt_ℤ (pos 0) e.cfg.cooldown_per_symbol_ms ≡ true
      → scan around e ≡ some r
      → alerts_for symbol r.1 ≡ true
      → All (IsSoon (unix_milli around.start) e.cfg.cooldown_per_symbol_ms) calls
      → run calls r.0 ≡ some r'
      → alerts_for symbol r'.1 ≡ false
  cooldown_holds lt_irrefl symbol around e r r' calls positive h alerted soon ran =
      let now = unix_milli around.start in
      let x = scan-Emits lt_irrefl around e r positive h in
      let m : IsMarked symbol now e.cfg r.0 = record {
        configured = x.follows.cfg;
        marked = remembered_at symbol now r.0 r.1 x.remembered alerted;
      } in
      (run-Keeps lt_irrefl symbol now e.cfg positive calls r.0 r' m soon ran).1
