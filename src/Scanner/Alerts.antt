-- ===== src/Scanner/Alerts.antt =====
-- internal/scanner/engine.go: the alerts of a whole scan.
use mathlib.Core.Path.{subst}
use trading_challenge.Prelude.{
  true, false, ◌||◌, Option, none, some, some_inj, >>=_inv, List, [], ◌∷◌, some_of, All, All-map,
  String, str_eq, eq_refl, ℤ, pos, lt_ℤ, le_ℤ, sub64_self, lookup, Float64, unix_milli, ◌≡◌, refl,
  sym, ap, ◌∙◌, inl, inr, Bool-cases, ||-false, ||-true,
}
use trading_challenge.Scanner.Types.{long, short, Signal, SignalAlert}
use trading_challenge.Scanner.Market.{MarketState}
use trading_challenge.Scanner.Guardrails.{Guardrails, daily_status}
use trading_challenge.Scanner.Engine.{Engine}
use trading_challenge.Scanner.Scoring.{Surroundings, filter_by_direction}
use trading_challenge.Scanner.Scan.{
  scan_direction, scan_signals, scan_symbol, scan_state, cools, scan_symbols, is_cooling, is_full,
  scan, run_detectors, register_alerts,
}
use trading_challenge.Scanner.Tracker.{open_trade_count}
use trading_challenge.Scanner.Emission.{
  IsScored, IsAdmitted, Follows, Follows-refl, Follows-trans, Emits, Emits-none, Emits-append,
  Emits-map, filter_by_direction-All, scan_direction-Emits,
}

listed_within :
    (xs all : List String)
    → ((s : String) → some_of (str_eq s) xs ≡ true → some_of (str_eq s) all ≡ true)
    → All (λ s. some_of (str_eq s) all ≡ true) xs
unfolding some_of
listed_within [] all within = tt
listed_within (x ∷ xs) all within =
    (within x (rw eq_refl), listed_within xs all (λ s h. within s (rw h (||-true (str_eq s x)))))

listed_self : (xs : List String) → All (λ s. some_of (str_eq s) xs ≡ true) xs
listed_self xs = listed_within xs xs (λ s h. h)

module _ {ℓ} {F : Type ℓ} ⦃flt : Float64 F⦄ where
  -- A symbol that got an alert in this scan is cooling, so one that is not is as it was before.
  is_cooling-Follows :
      (now : ℤ) (e e' : Engine F) (symbol : String)
      → lt_ℤ (pos 0) e.cfg.cooldown_per_symbol_ms ≡ true
      → Follows now e e'
      → is_cooling symbol now e' ≡ false
      → is_cooling symbol now e ≡ false
  unfolding is_cooling cools
  is_cooling-Follows now e e' symbol positive f rested = elim (f.marked symbol) [
    | inl same ↦
        ap (λ c. cools now c.cooldown_per_symbol_ms (lookup symbol e.last_alert)) (sym f.cfg)
        ∙ ap (cools now e'.cfg.cooldown_per_symbol_ms) (sym same)
        ∙ rested
    | inr new ↦
        let cooling : cools now e'.cfg.cooldown_per_symbol_ms (lookup symbol e'.last_alert) ≡ true =
          ap (cools now e'.cfg.cooldown_per_symbol_ms) new
          ∙ ap (λ c. lt_ℤ c e'.cfg.cooldown_per_symbol_ms) (sub64_self now)
          ∙ ap (λ c. lt_ℤ (pos 0) c.cooldown_per_symbol_ms) f.cfg
          ∙ positive in
        cc
  ]

  is_full-Follows : (now : ℤ) (e e' : Engine F) → Follows now e e' → is_full e' ≡ is_full e
  unfolding is_full
  is_full-Follows now e e' f =
      ap (λ c. le_ℤ c.risk.max_concurrent_trades (open_trade_count e'.tracker)) f.cfg
      ∙ ap (λ t. le_ℤ e.cfg.risk.max_concurrent_trades (open_trade_count t)) f.tracker

  Emits-cfg :
      (symbol : String) (now : ℤ) (e e' : Engine F) (r : Engine F × List (SignalAlert F))
      → e'.cfg ≡ e.cfg
      → Emits (λ a. IsScored e'.cfg a × (a.symbol ≡ symbol)) now e' r
      → Emits (λ a. IsScored e.cfg a × (a.symbol ≡ symbol)) now e' r
  Emits-cfg symbol now e e' r same =
      Emits-map _ _ now e' r (λ a p. (subst (λ c. IsScored c a) same p.0, p.1))

  module _ (lt_irrefl : (x : F) → flt.lt x x ≡ false) (around : Surroundings) (now : ℤ) where
    scan_signals-Emits :
        (symbol : String) (state : MarketState F) (signals : List (Signal F)) (e : Engine F)
        (r : Engine F × List (SignalAlert F))
        → scan_signals around symbol state now signals e ≡ some r
        → Emits (λ a. IsScored e.cfg a × (a.symbol ≡ symbol)) now e r
    unfolding scan_signals
    scan_signals-Emits symbol state [] e r h = rw⁻¹ (some_inj h) (Emits-none _ now e)
    scan_signals-Emits symbol state (s ∷ signals) e r h =
        let all : List (Signal F) = s ∷ signals in
        let (first, known, h₁) =
          >>=_inv (scan_direction around symbol state (filter_by_direction all long) long now e) _
            h in
        let (second, known₁, h₂) =
          >>=_inv
            (scan_direction around symbol state (filter_by_direction all short) short now first.0) _
            h₁ in
        let x : Emits (λ a. IsScored e.cfg a × (a.symbol ≡ symbol)) now e first =
          scan_direction-Emits lt_irrefl around now symbol state (filter_by_direction all long) long
            e first (filter_by_direction-All all long) known in
        let y : Emits (λ a. IsScored first.0.cfg a × (a.symbol ≡ symbol)) now first.0 second =
          scan_direction-Emits lt_irrefl around now symbol state (filter_by_direction all short)
            short first.0 second (filter_by_direction-All all short) known₁ in
        rw⁻¹ (some_inj h₂) (
          Emits-append _ now e first second x
            (Emits-cfg symbol now e first.0 second x.follows.cfg y))

    module _ (e₀ : Engine F) (positive : lt_ℤ (pos 0) e₀.cfg.cooldown_per_symbol_ms ≡ true) where
      -- What the parts of a scan give is admitted by the engine before the scan.
      scan_state-Emits :
          (symbol : String) (e : Engine F) (found : Option (MarketState F))
          (r : Engine F × List (SignalAlert F))
          → some_of (str_eq symbol) e₀.cfg.symbols ≡ true
          → Follows now e₀ e
          → scan_state around now symbol e found ≡ some r
          → Emits (IsAdmitted now e₀) now e r
      unfolding scan_state
      scan_state-Emits symbol e none r listed f h = rw⁻¹ (some_inj h) (Emits-none _ now e)
      scan_state-Emits symbol e (some state) r listed f h =
          elim (Bool-cases
            (flt.eq state.price (flt.lit 0 0) || (is_cooling symbol now e || is_full e))) [
              | inl passed ↦ rw⁻¹ (some_inj (rw passed at h)) (Emits-none _ now e)
              | inr scanned ↦
                  let (signals, _, h₁) =
                    >>=_inv (run_detectors e.detectors state)
                      (λ signals. scan_signals around symbol state now signals e) {b = r}
                      (rw scanned at h) in
                  let (_, free) =
                    ||-false (flt.eq state.price (flt.lit 0 0))
                      (is_cooling symbol now e || is_full e) scanned in
                  let (cool, space) = ||-false (is_cooling symbol now e) (is_full e) free in
                  let rested : is_cooling symbol now e₀ ≡ false =
                    is_cooling-Follows now e₀ e symbol positive f cool in
                  let room : is_full e₀ ≡ false = sym (is_full-Follows now e₀ e f) ∙ space in
                  Emits-map _ _ now e r
                    (λ a (scored, same). record {
                      scored = subst (λ c. IsScored c a) f.cfg scored;
                      listed = ap (λ s. some_of (str_eq s) e₀.cfg.symbols) same ∙ listed;
                      rested = ap (λ s. is_cooling s now e₀) same ∙ rested;
                      room = room;
                    })
                    (scan_signals-Emits symbol state signals e r h₁)
            ]

      scan_symbols-Emits :
          (symbols : List String) (e : Engine F) (r : Engine F × List (SignalAlert F))
          → All (λ s. some_of (str_eq s) e₀.cfg.symbols ≡ true) symbols
          → Follows now e₀ e
          → scan_symbols around now symbols e ≡ some r
          → Emits (IsAdmitted now e₀) now e r
      unfolding scan_symbols scan_symbol
      scan_symbols-Emits [] e r listed f h = rw⁻¹ (some_inj h) (Emits-none _ now e)
      scan_symbols-Emits (symbol ∷ symbols) e r (here, listed) f h =
          let (first, known, h₁) = >>=_inv (scan_symbol around now symbol e) _ h in
          let (rest, known₁, h₂) = >>=_inv (scan_symbols around now symbols first.0) _ h₁ in
          let x : Emits (IsAdmitted now e₀) now e first =
            scan_state-Emits symbol e (lookup symbol e.states) first here f known in
          let y : Emits (IsAdmitted now e₀) now first.0 rest =
            scan_symbols-Emits symbols first.0 rest listed
              (Follows-trans now e₀ e first.0 f x.follows) known₁ in
          rw⁻¹ (some_inj h₂) (Emits-append _ now e first rest x y)

  -- What the guardrails have no part in.
  Emits-guard :
      (P : SignalAlert F → Type ℓ) (now : ℤ) (e : Engine F) (g g' : Guardrails F)
      (r : Engine F × List (SignalAlert F))
      → Emits (λ a. IsAdmitted now (record e { guard = g }) a) now (record e { guard = g }) r
      → ((a : SignalAlert F) → IsAdmitted now e a → P a)
      → Emits P now e (record r.0 { guard = g' }, r.1)
  unfolding is_cooling is_full
  Emits-guard P now e g g' r x imp = record {
    follows = record {
      cfg = x.follows.cfg;
      tracker = x.follows.tracker;
      marked = x.follows.marked;
    };
    admitted =
        All-map _ P
          (λ a y.
            imp a
              (record { scored = y.scored; listed = y.listed; rested = y.rested; room = y.room }))
          r.1 x.admitted;
    remembered = x.remembered;
    others = x.others;
  }

  pub scan-Emits :
      (lt_irrefl : (x : F) → flt.lt x x ≡ false) (around : Surroundings) (e : Engine F)
      (r : Engine F × List (SignalAlert F))
      → lt_ℤ (pos 0) e.cfg.cooldown_per_symbol_ms ≡ true
      → scan around e ≡ some r
      → Emits
          (λ a.
            IsAdmitted (unix_milli around.start) e a
            × ((daily_status around.daily e.guard).1.can_trade ≡ true))
          (unix_milli around.start)
          e
          r
  unfolding scan
  scan-Emits lt_irrefl around e r positive h =
      elim (Bool-cases (daily_status around.daily e.guard).1.can_trade) [
        | inr closed ↦ rw⁻¹ (some_inj (rw closed at h)) (record {
          follows = record { cfg = refl; tracker = refl; marked = λ symbol. inl refl };
          admitted = tt;
          remembered = tt;
          others = λ symbol _. refl;
        })
        | inl trading ↦
            let now = unix_milli around.start in
            let g = (daily_status around.daily e.guard).0 in
            let e₁ = record e { guard = g } in
            let (done, known, h₁) =
              >>=_inv (scan_symbols around now e.cfg.symbols e₁) _ {b = r} (rw trading at h) in
            rw⁻¹ (some_inj h₁) (
              Emits-guard _ now e g (register_alerts around done.1 done.0.guard) done
                (scan_symbols-Emits lt_irrefl around now e₁ positive e.cfg.symbols e₁ done
                  (listed_self e.cfg.symbols) (Follows-refl now e₁) known)
                (λ a admitted. (admitted, trading)))
      ]
