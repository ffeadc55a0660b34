-- ===== src/Risk/Breaker.antt =====
-- The circuit breaker: what pruning keeps, when a trip opens the circuit, and for which symbols.
use trading_challenge.Prelude.{
  ◌≡◌, refl, sym, ◌∙◌, ◌↔◌, inl, inr, Bool, true, false, none, some, List, [], ◌∷◌, ◌++◌, arith,
  String, str_eq, eq_iff, eq_refl, Dict, lookup, lookup-insert, IsMap, select, some_of, All,
  Bool-cases, Option-cases, ℤ, pos, mul64, add64, sub64, lt_ℤ, le_ℤ, le_ℤ_trans, le_ℤ_of_not-lt,
  not-le_ℤ_of_lt, Float64, if◌then◌else◌,
}
use mathlib.Core.Bool.{false≢true}
use trading_challenge.Risk.CircuitBreaker.{
  Config, Sample, SymbolState, CircuitBreaker, prune, is_tripped, is_open, is_open_any, trip_reason,
  is_rapid_move, is_wide, quote, state_of, record_quote,
}

-- The samples stand in order of time.
abbrev pub IsSorted {ℓ} : {F : Type ℓ} → List (Sample F) → Type 0
IsSorted [] = Unit
IsSorted (s ∷ rest) = All (λ t. le_ℤ s.ts_ms t.ts_ms ≡ true) rest × IsSorted rest

module _ {ℓ} {F : Type ℓ} where
  select_later :
      (cutoff : ℤ) (s : Sample F) (l : List (Sample F))
      → le_ℤ cutoff s.ts_ms ≡ true
      → All (λ t. le_ℤ s.ts_ms t.ts_ms ≡ true) l
      → select (λ t. le_ℤ cutoff t.ts_ms) l ≡ l
  unfolding select
  select_later cutoff s [] h a = refl
  select_later cutoff s (t ∷ l) h (a, rest) =
      rw (le_ℤ_trans cutoff s.ts_ms t.ts_ms h a) (rw (select_later cutoff s l h rest))

  -- Of samples in order of time the pruning loop keeps exactly those at or after the cutoff.
  pub prune-eq-select :
      (cutoff : ℤ) (l : List (Sample F))
      → IsSorted l
      → prune cutoff l ≡ select (λ t. le_ℤ cutoff t.ts_ms) l
  unfolding prune select
  prune-eq-select cutoff [] h = refl
  prune-eq-select cutoff (s ∷ l) h = elim (Bool-cases (lt_ℤ s.ts_ms cutoff)) [
    | inl old ↦ rw (old, not-le_ℤ_of_lt s.ts_ms cutoff old) (prune-eq-select cutoff l h.1)
    | inr new ↦
        let kept = le_ℤ_of_not-lt s.ts_ms cutoff new in
        rw (new, kept) (rw (select_later cutoff s l kept h.0))
  ]

  some_of-lookup :
      (p : SymbolState F → Bool) (k : String) (st : SymbolState F) (m : Dict (SymbolState F))
      → lookup k m ≡ some st
      → p st ≡ true
      → some_of (λ e. p e.1) m ≡ true
  unfolding lookup some_of
  some_of-lookup p k st [] h q = cc
  some_of-lookup p k st ((j, v) ∷ m) h q = ground (arith, some_of-lookup p k st m)

  lookup_of_some_of :
      (p : SymbolState F → Bool) (m : Dict (SymbolState F))
      → IsMap m
      → some_of (λ e. p e.1) m ≡ true
      → (k : String) × (st : SymbolState F) × (lookup k m ≡ some st) × (p st ≡ true)
  unfolding lookup some_of
  lookup_of_some_of p [] d h = absurd (cc)
  lookup_of_some_of p ((j, v) ∷ m) d h = elim (Bool-cases (p v)) [
    | inl e ↦ (j, v, rw (eq_refl j), e)
    | inr e ↦
        let (k, st, found, q) = lookup_of_some_of p m d.1 (ground arith) in
        (k, st, ground (arith, eq_iff j k, d.0, found), q)
  ]

  is_open-some :
      (now : ℤ) (k : String) (cb : CircuitBreaker F) (st : SymbolState F)
      → lookup k cb.state ≡ some st
      → is_open now k cb ≡ is_tripped cb.cfg now st
  unfolding is_open
  is_open-some now k cb st e = rw (e, is_open)

  is_open-none :
      (now : ℤ) (k : String) (cb : CircuitBreaker F)
      → lookup k cb.state ≡ none
      → is_open now k cb ≡ false
  unfolding is_open
  is_open-none now k cb e = rw (e, is_open)

  trip_reason_some :
      (k : String) (cb : CircuitBreaker F) (st : SymbolState F)
      → lookup k cb.state ≡ some st
      → trip_reason k cb ≡ st.trip_reason
  unfolding trip_reason
  trip_reason_some k cb st e = rw (e, trip_reason)

  same_entry :
      (now : ℤ) (k : String) (cb : CircuitBreaker F) (m : Dict (SymbolState F))
      → lookup k m ≡ lookup k cb.state
      → let cb' = record cb { state = m } in
        (is_open now k cb' ≡ is_open now k cb) × (trip_reason k cb' ≡ trip_reason k cb)
  unfolding is_open trip_reason
  same_entry now k cb m e = (rw (e, is_open) refl, rw (e, trip_reason) refl)

  -- With one state for each symbol, some circuit is open exactly when the circuit of some symbol
  -- is.
  pub is_open_any_iff :
      (now : ℤ) (cb : CircuitBreaker F)
      → IsMap cb.state
      → (is_open_any now cb ≡ true) ↔ ((k : String) × (is_open now k cb ≡ true))
  unfolding is_open_any
  is_open_any_iff now cb d = (
    λ h.
        let (k, st, found, q) = lookup_of_some_of (is_tripped cb.cfg now) cb.state d h in
        (k, is_open-some now k cb st found ∙ q),
    λ (k, o). elim (Option-cases (lookup k cb.state)) [
      | inl e ↦ absurd (false≢true (sym (is_open-none now k cb e) ∙ o))
      | inr (st, e) ↦
          some_of-lookup (is_tripped cb.cfg now) k st cb.state e
            (sym (is_open-some now k cb st e) ∙ o)
    ],
  )

module _ {ℓ} {F : Type ℓ} ⦃flt : Float64 F⦄ where
  quote_trips :
      (cfg : Config F) (price bid ask : F) (ts : ℤ) (st : SymbolState F)
      → str_eq (quote cfg price bid ask ts st).1 "" ≡ false
      → ((quote cfg price bid ask ts st).0.tripped_until ≡ add64 ts cfg.cooldown_ms)
        × ((quote cfg price bid ask ts st).0.trip_reason ≡ (quote cfg price bid ask ts st).1)
  unfolding quote
  quote_trips cfg price bid ask ts st = elim (Bool-cases (flt.le price (flt.lit 0 0))) [
    | inl e ↦ rw e (λ r. absurd (false≢true (sym r ∙ eq_refl "")))
    | inr e ↦
        let kept =
          prune (sub64 ts (mul64 cfg.window_ms (pos 2)))
            (st.samples ++ (record { price = price; ts_ms = ts } ∷ [])) in
        elim (Bool-cases (some_of (is_rapid_move cfg price ts) kept)) [
          | inl m ↦ rw (e, m) (λ r. (refl, refl))
          | inr m ↦ elim (Bool-cases (is_wide cfg bid ask)) [
            | inl w ↦ rw (e, m, w) (λ r. (refl, refl))
            | inr w ↦ rw (e, m, w) (λ r. absurd (false≢true (sym r ∙ eq_refl "")))
          ]
        ]
  ]

  tripped_until_lem :
      (cfg : Config F) (now until : ℤ) (st : SymbolState F)
      → st.tripped_until ≡ until
      → lt_ℤ (pos 0) until ≡ true
      → lt_ℤ now until ≡ true
      → is_tripped cfg now st ≡ true
  unfolding is_tripped
  tripped_until_lem cfg now until st e p n = rw (e, p, n)

  lookup-record_quote :
      (symbol k : String) (price bid ask : F) (ts : ℤ) (cb : CircuitBreaker F)
      → lookup k (record_quote symbol price bid ask ts cb).0.state ≡ (
          if str_eq symbol k
          then some (quote cb.cfg price bid ask ts (state_of symbol cb)).0
          else lookup k cb.state)
  unfolding record_quote
  lookup-record_quote symbol k price bid ask ts cb = lookup-insert symbol k _ cb.state

  -- A quote that trips the breaker, which is one with a reason, opens the circuit of its symbol at
  -- every time before the end of the cooldown, if that is after the epoch, and the reason can be
  -- asked for.
  pub tripped_opens :
      (symbol : String) (price bid ask : F) (ts now : ℤ) (cb : CircuitBreaker F)
      → let out = record_quote symbol price bid ask ts cb in
        str_eq out.1 "" ≡ false
        → lt_ℤ (pos 0) (add64 ts cb.cfg.cooldown_ms) ≡ true
        → lt_ℤ now (add64 ts cb.cfg.cooldown_ms) ≡ true
        → (is_open now symbol out.0 ≡ true) × (trip_reason symbol out.0 ≡ out.1)
  unfolding record_quote
  tripped_opens symbol price bid ask ts now cb r p n =
      let out = quote cb.cfg price bid ask ts (state_of symbol cb) in
      let (until, why) = quote_trips cb.cfg price bid ask ts (state_of symbol cb) r in
      let cb' = (record_quote symbol price bid ask ts cb).0 in
      let found : lookup symbol cb'.state ≡ some out.0 =
        lookup-record_quote symbol symbol price bid ask ts cb ∙ rw (eq_refl symbol) in
      (
        is_open-some now symbol cb' out.0 found
            ∙ tripped_until_lem cb.cfg now (add64 ts cb.cfg.cooldown_ms) out.0 until p n,
        trip_reason_some symbol cb' out.0 found ∙ why,
      )

  -- A quote of one symbol changes neither the circuit nor the reason of another.
  pub record_quote_frame :
      (symbol k : String) (price bid ask : F) (ts now : ℤ) (cb : CircuitBreaker F)
      → str_eq symbol k ≡ false
      → let cb' = (record_quote symbol price bid ask ts cb).0 in
        (is_open now k cb' ≡ is_open now k cb) × (trip_reason k cb' ≡ trip_reason k cb)
  unfolding record_quote
  record_quote_frame symbol k price bid ask ts now cb ne =
      same_entry now k cb (record_quote symbol price bid ask ts cb).0.state
        (lookup-record_quote symbol k price bid ask ts cb ∙ rw ne refl)
