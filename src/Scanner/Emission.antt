-- ===== src/Scanner/Emission.antt =====
-- internal/scanner/engine.go: which alerts a scan gives.
use trading_challenge.Prelude.{
  >>=_inv, some_inj, true, false, not, Option, none, some, List, [], ◌∷◌, ◌++◌, some_of,
  some_of-append, ||-false, All, All-append, select-All, All-map, String, str_eq, eq_refl,
  if◌then◌else◌, ℤ, le_ℤ, lookup, insert, lookup-insert, Float64, ◌≡◌, refl, sym, ◌∙◌, ◌⊎◌, inl,
  inr, arith, Bool-cases, le_ℤ_of_not-lt,
}
use trading_challenge.Scanner.Types.{
  Direction, is_long, long, short, Signal, SignalAlert, RiskParams,
}
use trading_challenge.Scanner.Market.{MarketState}
use trading_challenge.Scanner.RiskManager.{
  RiskConfig, RiskError, Result, ok, error, sl_distance, position_of, compute_risk_params,
}
use trading_challenge.Scanner.Engine.{EngineConfig, Engine}
use trading_challenge.Scanner.Scoring.{
  Surroundings, confluence, average_strength, current_atr, structure_level, filter_by_direction,
  risk_params, is_weak, alert_of, scored, score_and_build,
}
use trading_challenge.Scanner.Scan.{remembered, scan_direction, is_cooling, is_full}

same_direction :
    (d d' : Direction) → (if is_long d then is_long d' else not (is_long d')) ≡ true → d' ≡ d
unfolding is_long
same_direction long long h = refl
same_direction long short h = cc
same_direction short long h = cc
same_direction short short h = refl

module _ {ℓ} {F : Type ℓ} ⦃flt : Float64 F⦄ where
  -- An alert is strong enough for the configuration, its signals all point its way, and its trade risks at
  -- most three percent of the initial balance and is not below the smallest size.
  pub record IsScored (cfg : EngineConfig F) (a : SignalAlert F) : Type ℓ where
    pub confluent : le_ℤ cfg.min_confluence a.confluence_score ≡ true
    pub counted : a.confluence_score ≡ confluence a.signals
    pub strong : flt.lt (average_strength a.signals) cfg.min_strength ≡ false
    pub capped : flt.lt (flt.mul cfg.initial_balance (flt.lit 3 2)) a.risk.risk_usd ≡ false
    pub sized : flt.lt a.risk.position_size_usd cfg.risk.min_position_size_usd ≡ false
    pub aligned : All (λ (s : Signal F). s.direction ≡ a.direction) a.signals

  -- What an engine may give an alert for at a time: its symbol is scanned and not cooling, and there is room
  -- for a trade.
  pub record IsAdmitted (now : ℤ) (e : Engine F) (a : SignalAlert F) : Type ℓ where
    pub scored : IsScored e.cfg a
    pub listed : some_of (str_eq a.symbol) e.cfg.symbols ≡ true
    pub rested : is_cooling a.symbol now e ≡ false
    pub room : is_full e ≡ false

  pub filter_by_direction-All :
      (signals : List (Signal F)) (d : Direction)
      → All (λ (s : Signal F). s.direction ≡ d) (filter_by_direction signals d)
  unfolding filter_by_direction
  filter_by_direction-All signals d = select-All _ _ (λ s h. same_direction d s.direction h) signals

  -- What a part of a scan leaves: an alert can only start the cooldown of a symbol.
  pub record Follows (now : ℤ) (e e' : Engine F) : Type ℓ where
    pub cfg : e'.cfg ≡ e.cfg
    pub tracker : e'.tracker ≡ e.tracker
    pub marked :
        (symbol : String)
        → (lookup symbol e'.last_alert ≡ lookup symbol e.last_alert)
          ⊎ (lookup symbol e'.last_alert ≡ some now)

  -- What a part of a scan gives: alerts of a kind, whose symbols it remembers.
  pub record Emits (P : SignalAlert F → Type ℓ) (now : ℤ) (e : Engine F)
      (r : Engine F × List (SignalAlert F)) : Type ℓ where
    pub follows : Follows now e r.0
    pub admitted : All P r.1
    pub remembered : All (λ (a : SignalAlert F). lookup a.symbol r.0.last_alert ≡ some now) r.1
    pub others :
        (symbol : String)
        → some_of (λ (a : SignalAlert F). str_eq a.symbol symbol) r.1 ≡ false
        → lookup symbol r.0.last_alert ≡ lookup symbol e.last_alert

  pub Follows-refl : (now : ℤ) (e : Engine F) → Follows now e e
  Follows-refl now e = record { cfg = refl; tracker = refl; marked = λ symbol. inl refl }

  pub Follows-marked :
      (now : ℤ) (e e' : Engine F) (symbol : String)
      → Follows now e e'
      → lookup symbol e.last_alert ≡ some now
      → lookup symbol e'.last_alert ≡ some now
  Follows-marked now e e' symbol f h = elim (f.marked symbol) [
    | inl same ↦ same ∙ h
    | inr new ↦ new
  ]

  pub Follows-trans :
      (now : ℤ) (e e' e'' : Engine F) → Follows now e e' → Follows now e' e'' → Follows now e e''
  Follows-trans now e e' e'' f g = record {
    cfg = g.cfg ∙ f.cfg;
    tracker = g.tracker ∙ f.tracker;
    marked = λ symbol. elim (g.marked symbol) [
      | inr new ↦ inr new
      | inl same ↦ elim (f.marked symbol) [
        | inl kept ↦ inl (same ∙ kept)
        | inr new ↦ inr (same ∙ new)
      ]
    ];
  }

  pub Emits-none : (P : SignalAlert F → Type ℓ) (now : ℤ) (e : Engine F) → Emits P now e (e, [])
  Emits-none P now e = record {
    follows = Follows-refl now e;
    admitted = tt;
    remembered = tt;
    others = λ symbol h. refl;
  }

  pub Emits-append :
      (P : SignalAlert F → Type ℓ) (now : ℤ) (e : Engine F) (r r' : Engine F × List (SignalAlert F))
      → Emits P now e r
      → Emits P now r.0 r'
      → Emits P now e (r'.0, r.1 ++ r'.1)
  Emits-append P now e r r' x y = record {
    follows = Follows-trans now e r.0 r'.0 x.follows y.follows;
    admitted = All-append P r.1 r'.1 x.admitted y.admitted;
    remembered =
        All-append (λ a. lookup a.symbol r'.0.last_alert ≡ some now) r.1 r'.1
          (All-map _ _ (λ a h. Follows-marked now r.0 r'.0 a.symbol y.follows h) r.1 x.remembered)
          y.remembered;
    others = λ symbol h.
        let (front, back) =
          some_of-append (λ (a : SignalAlert F). str_eq a.symbol symbol) r.1 r'.1 h in
        y.others symbol back ∙ x.others symbol front;
  }

  pub Emits-map :
      (P Q : SignalAlert F → Type ℓ) (now : ℤ) (e : Engine F) (r : Engine F × List (SignalAlert F))
      → ((a : SignalAlert F) → P a → Q a)
      → Emits P now e r
      → Emits Q now e r
  Emits-map P Q now e r imp x = record {
    follows = x.follows;
    admitted = All-map P Q imp r.1 x.admitted;
    remembered = x.remembered;
    others = x.others;
  }

  insert_self :
      (symbol : String) (now : ℤ) (e : Engine F)
      → lookup symbol (insert symbol now e.last_alert) ≡ some now
  insert_self symbol now e = lookup-insert symbol symbol now e.last_alert ∙ rw eq_refl

  insert_other :
      (symbol : String) (now : ℤ) (e : Engine F) (other : String)
      → str_eq symbol other ≡ false
      → lookup other (insert symbol now e.last_alert) ≡ lookup other e.last_alert
  insert_other symbol now e other apart = lookup-insert symbol other now e.last_alert ∙ rw apart

  insert_marked :
      (symbol : String) (now : ℤ) (e : Engine F) (other : String)
      → (lookup other (insert symbol now e.last_alert) ≡ lookup other e.last_alert)
        ⊎ (lookup other (insert symbol now e.last_alert) ≡ some now)
  insert_marked symbol now e other = elim (Bool-cases (str_eq symbol other)) [
    | inl same ↦ inr (lookup-insert symbol other now e.last_alert ∙ rw same)
    | inr apart ↦ inl (insert_other symbol now e other apart)
  ]

  module _ (lt_irrefl : (x : F) → flt.lt x x ≡ false) where
    position_of-capped :
        (cfg : RiskConfig F) (entry balance initial distance : F) (score : ℤ)
        → flt.lt
            (flt.mul initial (flt.lit 3 2))
            (position_of cfg entry balance initial distance score).2
          ≡ false
    unfolding position_of
    position_of-capped cfg entry balance initial distance score =
        ground (arith, lt_irrefl (flt.mul initial (flt.lit 3 2)))

    compute_risk_params-capped :
        (cfg : RiskConfig F) (d : Direction) (entry atr balance initial : F) (score : ℤ) (level : F)
        (p : RiskParams F)
        → compute_risk_params cfg d entry atr balance initial score level ≡ ok p
        → (flt.lt (flt.mul initial (flt.lit 3 2)) p.risk_usd ≡ false)
          × (flt.lt p.position_size_usd cfg.min_position_size_usd ≡ false)
    unfolding compute_risk_params
    compute_risk_params-capped cfg d entry atr balance initial score level p h = ground (
      arith,
      position_of-capped cfg entry balance initial (sl_distance cfg d entry atr level) score,
    )

    is_weak_lem :
        (signals : List (Signal F)) (e : Engine F)
        → is_weak signals e ≡ false
        → (le_ℤ e.cfg.min_confluence (confluence signals) ≡ true)
          × (flt.lt (average_strength signals) e.cfg.min_strength ≡ false)
    unfolding is_weak
    is_weak_lem [] e h = cc
    is_weak_lem (s ∷ signals) e h =
        ground (arith, le_ℤ_of_not-lt (confluence (s ∷ signals)) e.cfg.min_confluence)

    -- The parameters of a trade that is neither too small nor refused.
    risk_params-capped :
        (state : MarketState F) (d : Direction) (score : ℤ) (e : Engine F) (p : RiskParams F)
        → risk_params state d score e ≡ some (ok p)
        → (flt.lt (flt.mul e.cfg.initial_balance (flt.lit 3 2)) p.risk_usd ≡ false)
          × (flt.lt p.position_size_usd e.cfg.risk.min_position_size_usd ≡ false)
    unfolding risk_params
    risk_params-capped state d score e p h =
        let (range, _, h₁) = >>=_inv (current_atr state) _ h in
        let (level, _, h₂) = >>=_inv (structure_level d state) _ h₁ in
        compute_risk_params-capped e.cfg.risk d state.price range e.account_balance
          e.cfg.initial_balance score level p (some_inj h₂)

    module _ (around : Surroundings) (now : ℤ) (symbol : String) (state : MarketState F)
        (signals : List (Signal F)) (d : Direction) where
      alert_of-IsScored :
          (e : Engine F) (p : RiskParams F)
          → is_weak signals e ≡ false
          → risk_params state d (confluence signals) e ≡ some (ok p)
          → All (λ (s : Signal F). s.direction ≡ d) signals
          → IsScored e.cfg (alert_of around symbol signals d now p e)
      unfolding alert_of
      alert_of-IsScored e p strong known one_way =
          let (confluent, average) = is_weak_lem signals e strong in
          let (capped, sized) = risk_params-capped state d (confluence signals) e p known in
          record {
            confluent = confluent;
            counted = refl;
            strong = average;
            capped = capped;
            sized = sized;
            aligned = one_way;
          }

      answer-Emits :
          (e : Engine F) (answer : Result (RiskError F) (RiskParams F))
          → is_weak signals e ≡ false
          → risk_params state d (confluence signals) e ≡ some answer
          → All (λ (s : Signal F). s.direction ≡ d) signals
          → Emits
              (λ a. IsScored e.cfg a × (a.symbol ≡ symbol))
              now
              e
              (remembered symbol now (scored around symbol signals d now e answer))
      unfolding scored remembered
      answer-Emits e (error _) strong known one_way = Emits-none _ now e
      answer-Emits e (ok p) strong known one_way = record {
        follows = record { cfg = refl; tracker = refl; marked = insert_marked symbol now e };
        admitted = ((alert_of-IsScored e p strong known one_way, refl), tt);
        remembered = (insert_self symbol now e, tt);
        others =
            λ other h. insert_other symbol now e other (||-false (str_eq symbol other) false h).0;
      }

      score-Emits :
          (e : Engine F) (x : Engine F × Option (SignalAlert F))
          → score_and_build around symbol state signals d now e ≡ some x
          → All (λ (s : Signal F). s.direction ≡ d) signals
          → Emits (λ a. IsScored e.cfg a × (a.symbol ≡ symbol)) now e (remembered symbol now x)
      unfolding score_and_build remembered
      score-Emits e x h one_way = elim (Bool-cases (is_weak signals e)) [
        | inl weak ↦
            let same : x ≡ (e, none) = sym (some_inj (rw weak at h)) in rw same (Emits-none _ now e)
        | inr strong ↦
            let (answer, known, h₁) =
              >>=_inv (risk_params state d (confluence signals) e)
                (λ answer. some (scored around symbol signals d now e answer)) {b = x}
                (rw strong at h) in
            rw⁻¹ (some_inj h₁) (answer-Emits e answer strong known one_way)
      ]

      pub scan_direction-Emits :
          (e : Engine F) (r : Engine F × List (SignalAlert F))
          → All (λ (s : Signal F). s.direction ≡ d) signals
          → scan_direction around symbol state signals d now e ≡ some r
          → Emits (λ a. IsScored e.cfg a × (a.symbol ≡ symbol)) now e r
      unfolding scan_direction
      scan_direction-Emits e r one_way h =
          let (x, known, h₁) =
            >>=_inv (score_and_build around symbol state signals d now e)
              (λ answer. some (remembered symbol now answer)) h in
          rw⁻¹ (some_inj h₁) (score-Emits e x known one_way)
