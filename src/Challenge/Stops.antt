-- ===== src/Challenge/Stops.antt =====
-- The life of a stop-loss deadline.
use trading_challenge.Prelude.{
  ◌≡◌, ◌≢◌, refl, ◌⊎◌, inl, inr, ◌↔◌, true, false, none, some, [], ◌∷◌, map, select, arith, String,
  eq_iff, eq_refl, Time, Dict, lookup, lookup-insert, add_duration, after, Decimal, Convert,
  Option-cases,
}
use trading_challenge.Arb.{TradeIntent}
use trading_challenge.Challenge.Config.{stop_loss_deadline}
use trading_challenge.Challenge.Rules.{check_stop_loss_required}
use trading_challenge.Challenge.Daemon.{
  TrackedPosition, Daemon, reset_daily_if_needed, track_position, confirm_stop_loss, set_stop_loss,
  confirm_paired_stop_loss, is_overdue, positions_with_expired_stop_loss,
}
use trading_challenge.Challenge.Intent.{first_overdue, validate_intent}

module _ {ℓ} {D : Type ℓ} ⦃dec : Decimal D⦄ where
  overdue_found :
      (later : Time) (k : String) (p : TrackedPosition D) (m : Dict (TrackedPosition D))
      → lookup k m ≡ some p
      → is_overdue later p ≡ true
      → first_overdue later m ≢ none
  unfolding lookup first_overdue
  overdue_found later k p [] h o = cc
  overdue_found later k p ((j, q) ∷ m) h o = ground (arith, overdue_found later k p m)

  -- The list of expired positions is empty exactly when no position blocks the intents.
  pub expired_iff :
      (now : Time) (d : Daemon D)
      → (positions_with_expired_stop_loss now d ≡ []) ↔ (first_overdue now d.positions ≡ none)
  unfolding positions_with_expired_stop_loss first_overdue
  expired_iff now d = go d.positions
    where
      go :
          (m : Dict (TrackedPosition D))
          → (map (λ e. e.0) (select (λ e. is_overdue now e.1) m) ≡ [])
            ↔ (first_overdue now m ≡ none)
      go [] = ground arith
      go ((k, p) ∷ m) = ground (arith, go m)

  lookup-set_stop_loss :
      (now : Time) (symbol k : String) (m : Dict (TrackedPosition D)) (p : TrackedPosition D)
      → lookup k (set_stop_loss now symbol m) ≡ some p
      → ((k ≡ symbol) × (p.has_stop_loss ≡ true)) ⊎ ((k ≢ symbol) × (lookup k m ≡ some p))
  unfolding set_stop_loss
  lookup-set_stop_loss now symbol k m p h = elim (Option-cases (lookup symbol m)) [
    | inl e ↦ ground (arith, e, eq_iff symbol k)
    | inr (q, e) ↦ ground (
      arith,
      e,
      eq_iff symbol k,
      lookup-insert symbol k (record q { has_stop_loss = true; stop_loss_set = some now }) m,
    )
  ]

  -- Confirming the stop-losses of a pair marks both legs, where they are tracked, and no other
  -- position, which is as it was.
  pub confirm_paired_lem :
      (now later : Time) (primary hedge k : String) (d : Daemon D) (p : TrackedPosition D)
      → lookup k (confirm_paired_stop_loss now later primary hedge d).positions ≡ some p
      → (((k ≡ primary) ⊎ (k ≡ hedge)) × (p.has_stop_loss ≡ true))
        ⊎ ((k ≢ primary) × (k ≢ hedge) × (lookup k d.positions ≡ some p))
  unfolding confirm_paired_stop_loss
  confirm_paired_lem now later primary hedge k d p h = ground (
    arith,
    eq_iff hedge primary,
    lookup-set_stop_loss now primary k d.positions p,
    lookup-set_stop_loss later hedge k (set_stop_loss now primary d.positions) p,
  )

  lookup-track :
      (now : Time) (symbol : String) (notional margin : D) (d : Daemon D)
      → (p : TrackedPosition D) × (lookup symbol
            (track_position now symbol notional margin d).positions
          ≡ some p)
        × (p.has_stop_loss ≡ false)
        × (p.deadline ≡ add_duration now (stop_loss_deadline d.cfg))
  unfolding track_position check_stop_loss_required
  lookup-track now symbol notional margin d = (
    record {
      symbol = symbol;
      open_time = now;
      deadline = add_duration now (stop_loss_deadline d.cfg);
      has_stop_loss = false;
      stop_loss_set = none;
      notional_usd = notional;
      margin_usd = margin;
    },
    rw (lookup-insert symbol symbol _ d.positions, eq_refl symbol),
    refl,
    refl,
  )

module _ {ℓ κ} {D : Type ℓ} {F : Type κ} ⦃dec : Decimal D⦄ ⦃conv : Convert D F⦄ where
  -- With the rules switched on, a position that is tracked, and then left without a stop-loss past
  -- its deadline, blocks every intent; once its stop-loss is confirmed, it is overdue at no time.
  pub deadline_enforced :
      (opened now later confirmed : Time) (symbol : String) (notional margin : D)
      (intent : TradeIntent F) (d : Daemon D)
      → d.cfg.enabled ≡ true
      → after later (add_duration opened (stop_loss_deadline d.cfg)) ≡ true
      → let d' = track_position opened symbol notional margin d in
        ((validate_intent now later intent d').1 ≢ none)
        × ((t : Time) (p : TrackedPosition D)
            → lookup symbol (confirm_stop_loss confirmed symbol d').positions ≡ some p
            → is_overdue t p ≡ false)
  unfolding validate_intent reset_daily_if_needed confirm_stop_loss
  deadline_enforced opened now later confirmed symbol notional margin intent d on late =
      let d' = track_position opened symbol notional margin d in
      let (p, found, bare, due) = lookup-track opened symbol notional margin d in
      let overdue : is_overdue later p ≡ true = rw (bare, due) late in
      let blocked = overdue_found later symbol p d'.positions found overdue in
      let enabled : d'.cfg.enabled ≡ true = unfold track_position in on in
      (
        ground (arith, blocked, enabled),
        λ t q h. ground (arith, lookup-set_stop_loss confirmed symbol symbol d'.positions q h),
      )
