-- ===== src/Scanner/Scoring.antt =====
-- internal/scanner/engine.go: how the signals of a direction are scored. `none` is a panic.
use trading_challenge.Prelude.{
  Bool, not, ◌&&◌, ◌||◌, true, Option, none, some, ◌>>=◌, List, [], ◌∷◌, length, foldl, select,
  some_of, last, String, str_eq, if◌then◌else◌, ltb, ℤ, pos, lt_ℤ, add64, mul64, lookup, Time,
  add_duration, Float64,
}
use trading_challenge.Scanner.Types.{Direction, is_long, Signal, SignalAlert, RiskParams, pending}
use trading_challenge.Scanner.Market.{MarketState, tf_15m, last_or}
use trading_challenge.Scanner.Indicators.{atr}
use trading_challenge.Scanner.Momentum.{SwingPoint, find_swing_points}
use trading_challenge.Scanner.RiskManager.{RiskError, Result, ok, error, compute_risk_params}
use trading_challenge.Scanner.Engine.{Engine}

-- What a scan reads from the clock, and the text of an alert's number, which fmt prints.
pub record Surroundings : Type 0 where
  pub start : Time
  pub daily : Time
  pub expires : String → Direction → Time
  pub created : String → Direction → Time
  pub registered : String → Time
  pub print_id : String → Direction → ℤ → ℤ → String

module _ {ℓ} {F : Type ℓ} ⦃flt : Float64 F⦄ where
  -- A set of factors: one that is in it already is not added again.
  unfoldable pub add_factor : List String → Signal F → List String
  unfolding some_of
  add_factor factors s = if some_of (str_eq s.factor) factors then factors else s.factor ∷ factors

  unfoldable pub confluence : List (Signal F) → ℤ
  unfolding add_factor
  confluence signals = pos (length (foldl add_factor [] signals))

  unfoldable pub average_strength : List (Signal F) → F
  average_strength signals =
      flt.div (foldl (λ total s. flt.add total s.strength) (flt.lit 0 0) signals)
        (flt.of_int (pos (length signals)))

  unfoldable pub filter_by_direction : List (Signal F) → Direction → List (Signal F)
  unfolding is_long select
  filter_by_direction signals direction =
      select (λ s. if is_long direction then is_long s.direction else not (is_long s.direction))
        signals

  -- The true range of the candles, or half a percent of the price.
  unfoldable pub current_atr : MarketState F → Option F
  unfolding lookup atr last
  current_atr state =
      (elim (lookup tf_15m state.candles) [
        | none ↦ some (flt.lit 0 0)
        | some candles ↦
            if ltb 14 (length candles)
            then (atr candles (pos 14) >>= λ values. some (last_or (flt.lit 0 0) values))
            else some (flt.lit 0 0)
      ])
      >>= λ range.
          some (if flt.eq range (flt.lit 0 0) then flt.mul state.price (flt.lit 5 3) else range)

  -- A swing point that can hold a stop-loss: a low below the price, or a high above it.
  unfoldable pub holds_stop : Direction → (price : F) → SwingPoint F → Bool
  unfolding is_long
  holds_stop direction price s =
      if is_long direction
      then not s.is_high && flt.lt s.price price
      else s.is_high && flt.lt price s.price

  -- The price of the latest such point.
  unfoldable pub structure_level : Direction → MarketState F → Option F
  unfolding lookup find_swing_points holds_stop select last
  structure_level direction state = elim (lookup tf_15m state.candles) [
    | none ↦ some (flt.lit 0 0)
    | some candles ↦ find_swing_points candles (pos 3) >>= λ swings.
        elim (last (select (holds_stop direction state.price) swings)) [
          | none ↦ some (flt.lit 0 0)
          | some s ↦ some s.price
        ]
  ]

  unfoldable pub risk_params :
      MarketState F
      → Direction
      → (score : ℤ) → Engine F
      → Option (Result (RiskError F) (RiskParams F))
  unfolding current_atr structure_level
  risk_params state direction score e = current_atr state >>= λ range.
      structure_level direction state >>= λ level. some (
        compute_risk_params e.cfg.risk direction state.price range e.account_balance
          e.cfg.initial_balance score level)

  -- The alert of a direction with the parameters of its trade.
  unfoldable pub alert_of :
      Surroundings
      → String
      → List (Signal F)
      → Direction
      → (now : ℤ) → RiskParams F
      → Engine F
      → SignalAlert F
  unfolding confluence
  alert_of around symbol signals direction now risk e = record {
    id = around.print_id symbol direction now (add64 e.alert_seq (pos 1));
    symbol = symbol;
    direction = direction;
    signals = signals;
    confluence_score = confluence signals;
    risk = risk;
    timeframe = tf_15m;
    expires_at =
        add_duration (around.expires symbol direction)
          (mul64 e.cfg.alert_validity_minutes (pos 60_000_000_000));
    created_at = around.created symbol direction;
    outcome = pending;
    outcome_detail = none;
    outcome_pnl = flt.lit 0 0;
    outcome_at = none;
  }

  -- The signals are too few, of too few factors, or too weak.
  unfoldable pub is_weak : List (Signal F) → Engine F → Bool
  unfolding confluence average_strength
  is_weak [] e = true
  is_weak (s ∷ signals) e =
      lt_ℤ (confluence (s ∷ signals)) e.cfg.min_confluence
      || flt.lt (average_strength (s ∷ signals)) e.cfg.min_strength

  -- What comes of the parameters of the trade: nothing, or the alert with the next number.
  unfoldable pub scored :
      Surroundings
      → String
      → List (Signal F)
      → Direction
      → (now : ℤ) → Engine F
      → Result (RiskError F) (RiskParams F)
      → Engine F × Option (SignalAlert F)
  unfolding alert_of
  scored around symbol signals direction now e (error _) = (e, none)
  scored around symbol signals direction now e (ok risk) = (
    record e { alert_seq = add64 e.alert_seq (pos 1) },
    some (alert_of around symbol signals direction now risk e),
  )

  unfoldable pub score_and_build :
      Surroundings
      → String
      → MarketState F
      → List (Signal F)
      → Direction
      → (now : ℤ) → Engine F
      → Option (Engine F × Option (SignalAlert F))
  unfolding is_weak risk_params scored
  score_and_build around symbol state signals direction now e =
      if is_weak signals e
      then some (e, none)
      else (risk_params state direction (confluence signals) e >>= λ answer.
          some (scored around symbol signals direction now e answer))
