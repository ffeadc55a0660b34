-- ===== src/Scanner/Scan.antt =====
-- internal/scanner/engine.go: the scan over the symbols. The callbacks get the alerts that a scan returns, in
-- that order; log lines are left out, and with them the time stops, which are only logged. `none` is a panic.
use trading_challenge.Prelude.{
  Bool, not, ◌||◌, false, Option, none, some, ◌>>=◌, List, [], ◌∷◌, ◌++◌, String, if◌then◌else◌, ℤ,
  lt_ℤ, le_ℤ, sub64, lookup, insert, unix_milli, Float64,
}
use trading_challenge.Scanner.Types.{Direction, long, short, Signal, SignalAlert}
use trading_challenge.Scanner.Market.{MarketState}
use trading_challenge.Scanner.Guardrails.{Guardrails, daily_status, register_alert_received}
use trading_challenge.Scanner.Tracker.{open_trade_count}
use trading_challenge.Scanner.Engine.{Detector, Engine}
use trading_challenge.Scanner.Scoring.{Surroundings, filter_by_direction, score_and_build}

unfoldable pub cools : (now cooldown : ℤ) (last_alert : Option ℤ) → Bool
cools now cooldown none = false
cools now cooldown (some last) = lt_ℤ (sub64 now last) cooldown

module _ {ℓ} {F : Type ℓ} ⦃flt : Float64 F⦄ where
  -- An alert starts the cooldown of its symbol.
  unfoldable pub remembered :
      String → (now : ℤ) → Engine F × Option (SignalAlert F) → Engine F × List (SignalAlert F)
  unfolding insert
  remembered symbol now (e, none) = (e, [])
  remembered symbol now (e, some alert) =
      (record e { last_alert = insert symbol now e.last_alert }, alert ∷ [])

  unfoldable pub scan_direction :
      Surroundings
      → String
      → MarketState F
      → List (Signal F)
      → Direction
      → (now : ℤ) → Engine F
      → Option (Engine F × List (SignalAlert F))
  unfolding score_and_build remembered
  scan_direction around symbol state signals direction now e =
      score_and_build around symbol state signals direction now e >>= λ answer.
      some (remembered symbol now answer)

  unfoldable pub run_detectors : List (Detector F) → MarketState F → Option (List (Signal F))
  run_detectors [] state = some []
  run_detectors (detect ∷ detectors) state =
      let rest = run_detectors detectors state in
      detect state >>= λ signals. rest >>= λ later. some (signals ++ later)

  -- The symbol had an alert a short while ago.
  unfoldable pub is_cooling : String → (now : ℤ) → Engine F → Bool
  unfolding lookup cools
  is_cooling symbol now e = cools now e.cfg.cooldown_per_symbol_ms (lookup symbol e.last_alert)

  unfoldable pub is_full : Engine F → Bool
  unfolding open_trade_count
  is_full e = le_ℤ e.cfg.risk.max_concurrent_trades (open_trade_count e.tracker)

  -- Both directions of a symbol, with the signals of the detectors.
  unfoldable pub scan_signals :
      Surroundings
      → String
      → MarketState F
      → (now : ℤ) → List (Signal F)
      → Engine F
      → Option (Engine F × List (SignalAlert F))
  unfolding scan_direction filter_by_direction
  scan_signals around symbol state now [] e = some (e, [])
  scan_signals around symbol state now (s ∷ signals) e =
      scan_direction around symbol state (filter_by_direction (s ∷ signals) long) long now e
      >>= λ first.
          scan_direction around symbol state (filter_by_direction (s ∷ signals) short) short now
            first.0
          >>= λ second. some (second.0, first.1 ++ second.1)

  -- A symbol is passed over if it is not known, has no price, or is cooling, and if the trades are too many.
  unfoldable pub scan_state :
      Surroundings
      → (now : ℤ) → String
      → Engine F
      → Option (MarketState F)
      → Option (Engine F × List (SignalAlert F))
  unfolding is_cooling is_full run_detectors scan_signals
  scan_state around now symbol e none = some (e, [])
  scan_state around now symbol e (some state) =
      if flt.eq state.price (flt.lit 0 0) || (is_cooling symbol now e || is_full e)
      then some (e, [])
      else (run_detectors e.detectors state >>= λ signals.
          scan_signals around symbol state now signals e)

  unfoldable pub scan_symbol :
      Surroundings → (now : ℤ) → String → Engine F → Option (Engine F × List (SignalAlert F))
  unfolding scan_state lookup
  scan_symbol around now symbol e = scan_state around now symbol e (lookup symbol e.states)

  unfoldable pub scan_symbols :
      Surroundings → (now : ℤ) → List String → Engine F → Option (Engine F × List (SignalAlert F))
  unfolding scan_symbol
  scan_symbols around now [] e = some (e, [])
  scan_symbols around now (symbol ∷ symbols) e = scan_symbol around now symbol e >>= λ first.
      scan_symbols around now symbols first.0 >>= λ rest. some (rest.0, first.1 ++ rest.1)

  -- The alerts are registered with the guardrails.
  unfoldable pub register_alerts : Surroundings → List (SignalAlert F) → Guardrails F → Guardrails F
  unfolding register_alert_received
  register_alerts around [] g = g
  register_alerts around (alert ∷ alerts) g =
      register_alerts around alerts
        (register_alert_received (around.registered alert.id) alert.id g)

  unfoldable pub scan : Surroundings → Engine F → Option (Engine F × List (SignalAlert F))
  unfolding daily_status scan_symbols register_alerts
  scan around e =
      let (guard, status) = daily_status around.daily e.guard in
      let e₁ = record e { guard = guard } in
      if not status.can_trade
      then some (e₁, [])
      else (scan_symbols around (unix_milli around.start) e₁.cfg.symbols e₁ >>= λ done.
          some (record done.0 { guard = register_alerts around done.1 done.0.guard }, done.1))
