-- ===== src/Risk/CircuitBreaker.antt =====
-- internal/risk/circuitbreaker.go: flash crashes, wide spreads and stale quotes, for each symbol.
-- Prices are float64; times are milliseconds in int64, and `now` is a reading of the clock.
use trading_challenge.Prelude.{
  Bool, false, ◌&&◌, ◌||◌, none, some, List, [], ◌∷◌, ◌++◌, String, Dict, lookup, insert, some_of,
  if◌then◌else◌, ℤ, pos, add64, sub64, mul64, lt_ℤ, le_ℤ, Float64,
}

pub record Config {ℓ} (F : Type ℓ) : Type ℓ where
  pub price_move_pct_threshold : F
  pub window_ms : ℤ
  pub spread_multiplier_threshold : F
  pub normal_spread_bps : F
  pub cooldown_ms : ℤ
  pub stale_quote_ms : ℤ

pub record Sample {ℓ} (F : Type ℓ) : Type ℓ where
  pub price : F
  pub ts_ms : ℤ

pub record SymbolState {ℓ} (F : Type ℓ) : Type ℓ where
  pub samples : List (Sample F)
  pub last_bid : F
  pub last_ask : F
  pub last_quote_ts_ms : ℤ
  pub tripped_until : ℤ
  pub trip_reason : String

pub record CircuitBreaker {ℓ} (F : Type ℓ) : Type ℓ where
  pub cfg : Config F
  pub state : Dict (SymbolState F)

-- The pruning loop: the index goes on while the sample there is older than the cutoff, and the samples
-- from the index on stay.
unfoldable pub prune {ℓ} : {F : Type ℓ} → ℤ → List (Sample F) → List (Sample F)
prune cutoff [] = []
prune cutoff (s ∷ rest) =
    let later = prune cutoff rest in if lt_ℤ s.ts_ms cutoff then later else s ∷ rest

-- Tripped and not cooled down, or the last quote is stale.
unfoldable pub is_tripped {ℓ} : {F : Type ℓ} → Config F → ℤ → SymbolState F → Bool
is_tripped cfg now st =
    (lt_ℤ (pos 0) st.tripped_until && lt_ℤ now st.tripped_until)
    || (lt_ℤ (pos 0) st.last_quote_ts_ms && lt_ℤ cfg.stale_quote_ms (sub64 now st.last_quote_ts_ms))

module _ {ℓ} {F : Type ℓ} where
  unfoldable pub is_open : ℤ → String → CircuitBreaker F → Bool
  unfolding is_tripped
  is_open now symbol cb = elim (lookup symbol cb.state) [
    | none ↦ false
    | some st ↦ is_tripped cb.cfg now st
  ]

  unfoldable pub is_open_any : ℤ → CircuitBreaker F → Bool
  unfolding is_tripped some_of
  is_open_any now cb = some_of (λ e. is_tripped cb.cfg now e.1) cb.state

  unfoldable pub trip_reason : String → CircuitBreaker F → String
  trip_reason symbol cb = elim (lookup symbol cb.state) [ none ↦ "" | some st ↦ st.trip_reason ]

  -- A write through the pointer that the map holds.
  unfoldable pub reset : String → CircuitBreaker F → CircuitBreaker F
  reset symbol cb = elim (lookup symbol cb.state) [
    | none ↦ cb
    | some st ↦ record cb {
      state =
          insert symbol (record st { tripped_until = pos 0; trip_reason = ""; samples = [] })
            cb.state;
    }
  ]

module _ {ℓ} {F : Type ℓ} ⦃flt : Float64 F⦄ where
  unfoldable pub default_config : Config F
  default_config = record {
    price_move_pct_threshold = flt.lit 5 0;
    window_ms = pos 60_000;
    spread_multiplier_threshold = flt.lit 3 0;
    normal_spread_bps = flt.lit 1 0;
    cooldown_ms = pos 30_000;
    stale_quote_ms = pos 5000;
  }

  unfoldable new_symbol : SymbolState F
  new_symbol = record {
    samples = [];
    last_bid = flt.lit 0 0;
    last_ask = flt.lit 0 0;
    last_quote_ts_ms = pos 0;
    tripped_until = pos 0;
    trip_reason = "";
  }

  -- Check 1 on one sample: in the window, and the price has moved too far from it.
  unfoldable pub is_rapid_move : Config F → F → ℤ → Sample F → Bool
  is_rapid_move cfg price ts s =
      (le_ℤ (sub64 ts cfg.window_ms) s.ts_ms && flt.lt (flt.lit 0 0) s.price)
      && flt.le cfg.price_move_pct_threshold
          (flt.mul (flt.div (flt.abs (flt.sub price s.price)) s.price) (flt.lit 100 0))

  -- Check 2.
  unfoldable pub is_wide : Config F → F → F → Bool
  is_wide cfg bid ask =
      (flt.lt (flt.lit 0 0) bid && flt.lt (flt.lit 0 0) ask)
      && flt.lt (flt.mul cfg.normal_spread_bps cfg.spread_multiplier_threshold) (
          flt.mul (flt.div (flt.sub ask bid) (flt.div (flt.add ask bid) (flt.lit 2 0)))
            (flt.lit 10_000 0))

  unfoldable trip : Config F → ℤ → String → SymbolState F → SymbolState F × String
  trip cfg ts reason st =
      (record st { tripped_until = add64 ts cfg.cooldown_ms; trip_reason = reason }, reason)

  -- The body of `RecordQuote` on the state of the symbol.
  unfoldable pub quote : Config F → F → F → F → ℤ → SymbolState F → SymbolState F × String
  unfolding trip
  quote cfg price bid ask ts st₀ =
      let st₁ = record st₀ { last_bid = bid; last_ask = ask; last_quote_ts_ms = ts } in
      let kept =
        prune (sub64 ts (mul64 cfg.window_ms (pos 2)))
          (st₀.samples ++ (record { price = price; ts_ms = ts } ∷ [])) in
      let st = record st₁ { samples = kept } in
      if flt.le price (flt.lit 0 0)
      then (st₁, "")
      else if some_of (is_rapid_move cfg price ts) kept
      then trip cfg ts "flash_crash_detected" st
      else if is_wide cfg bid ask
      then trip cfg ts "abnormal_spread" st
      else (st, "")

  -- A symbol that is new gets an empty state.
  unfoldable pub state_of : String → CircuitBreaker F → SymbolState F
  unfolding new_symbol
  state_of symbol cb = elim (lookup symbol cb.state) [ none ↦ new_symbol | some st ↦ st ]

  unfoldable pub record_quote :
      String → F → F → F → ℤ → CircuitBreaker F → CircuitBreaker F × String
  unfolding state_of
  record_quote symbol price bid ask ts cb =
      let (st, reason) = quote cb.cfg price bid ask ts (state_of symbol cb) in
      (record cb { state = insert symbol st cb.state }, reason)
