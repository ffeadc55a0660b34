-- ===== src/Challenge/Exposure.antt =====
-- The exposure totals: what a confirmed stop-loss leaves alone, and what a position adds to them and takes
-- out of them.
use trading_challenge.Prelude.{
  ◌≡◌, refl, ap, ◌∙◌, inl, inr, true, some, [], ◌∷◌, foldl, arith, String, Time, Dict, lookup,
  insert, erase, IsMap, eq_iff, Option, none, Bool-cases, str_eq, Decimal, IsField, Option-cases,
}
use trading_challenge.Challenge.Daemon.{
  TrackedPosition, Daemon, add_exposure, exposure, set_stop_loss, confirm_stop_loss,
  confirm_paired_stop_loss, track_position, close_position, recalc_exposure,
}
use trading_challenge.Challenge.Invariant.{Inv}

module _ {ℓ} {D : Type ℓ} ⦃dec : Decimal D⦄ where
  foldl-insert_same :
      (k : String) (p q : TrackedPosition D) (m : Dict (TrackedPosition D)) (acc : D × D)
      → lookup k m ≡ some p
      → q.margin_usd ≡ p.margin_usd
      → q.notional_usd ≡ p.notional_usd
      → foldl add_exposure acc (insert k q m) ≡ foldl add_exposure acc m
  unfolding lookup insert
  foldl-insert_same k p q [] acc h e f = cc
  foldl-insert_same k p q ((j, w) ∷ m) acc h e f =
      ground (arith, foldl-insert_same k p q m (add_exposure acc (j, w)))

  -- A stop-loss that is confirmed changes no total.
  pub exposure-set_stop_loss :
      (now : Time) (symbol : String) (m : Dict (TrackedPosition D))
      → exposure (set_stop_loss now symbol m) ≡ exposure m
  unfolding exposure set_stop_loss
  exposure-set_stop_loss now symbol m = elim (Option-cases (lookup symbol m)) [
    | inl e ↦ rw (e, set_stop_loss)
    | inr (p, e) ↦
        rw (e, set_stop_loss)
          (foldl-insert_same symbol p (record p { has_stop_loss = true; stop_loss_set = some now })
            m (dec.nought, dec.nought) e refl refl)
  ]

  pub confirm_stop_loss-Inv :
      (now : Time) (symbol : String) {d : Daemon D} → Inv d → Inv (confirm_stop_loss now symbol d)
  unfolding confirm_stop_loss
  confirm_stop_loss-Inv now symbol {d} v =
      ground (arith, exposure-set_stop_loss now symbol d.positions)

  pub confirm_paired-Inv :
      (now later : Time) (primary hedge : String) {d : Daemon D}
      → Inv d
      → Inv (confirm_paired_stop_loss now later primary hedge d)
  unfolding confirm_paired_stop_loss
  confirm_paired-Inv now later primary hedge {d} v = ground (
    arith,
    exposure-set_stop_loss now primary d.positions,
    exposure-set_stop_loss later hedge (set_stop_loss now primary d.positions),
  )

  erase_absent : (k : String) (m : Dict (TrackedPosition D)) → lookup k m ≡ none → erase k m ≡ m
  unfolding lookup erase
  erase_absent k [] h = refl
  erase_absent k ((j, w) ∷ m) h = ground (arith, erase_absent k m)

  -- What a symbol has in the totals.
  abbrev pub margin_of : Option (TrackedPosition D) → D
  margin_of none = dec.nought
  margin_of (some p) = p.margin_usd

  abbrev pub notional_of : Option (TrackedPosition D) → D
  notional_of none = dec.nought
  notional_of (some p) = p.notional_usd

  module _ (laws : IsField D) where
    open laws use {add_comm, add_assoc, add_nought}

    add_swap : (a b c : D) → dec.add (dec.add a b) c ≡ dec.add (dec.add a c) b
    add_swap a b c = rw (add_assoc a b c, add_assoc a c b, add_comm b c)

    add_nought_right : (a : D) → dec.add a dec.nought ≡ a
    add_nought_right a = add_comm a dec.nought ∙ add_nought a

    add_exposure_swap :
        (acc : D × D) (a b : String × TrackedPosition D)
        → add_exposure (add_exposure acc a) b ≡ add_exposure (add_exposure acc b) a
    add_exposure_swap acc a b = ground (
      arith,
      add_swap acc.0 a.1.margin_usd b.1.margin_usd,
      add_swap acc.1 a.1.notional_usd b.1.notional_usd,
    )

    foldl-add_exposure :
        (acc : D × D) (a : String × TrackedPosition D) (m : Dict (TrackedPosition D))
        → foldl add_exposure (add_exposure acc a) m ≡ add_exposure (foldl add_exposure acc m) a
    foldl-add_exposure acc a [] = refl
    foldl-add_exposure acc a (b ∷ m) =
        ap (λ x. foldl add_exposure x m) (add_exposure_swap acc a b)
        ∙ foldl-add_exposure (add_exposure acc b) a m

    -- The position that is added first may be added last.
    exposure-cons :
        (k : String) (p : TrackedPosition D) (m : Dict (TrackedPosition D))
        → exposure ((k, p) ∷ m)
          ≡ (dec.add (exposure m).0 p.margin_usd, dec.add (exposure m).1 p.notional_usd)
    unfolding exposure
    exposure-cons k p m = foldl-add_exposure (dec.nought, dec.nought) (k, p) m

    exposure-insert :
        (k : String) (q : TrackedPosition D) (m : Dict (TrackedPosition D))
        → (dec.add (exposure (insert k q m)).0 (margin_of (lookup k m))
            ≡ dec.add (exposure m).0 q.margin_usd)
          × (dec.add (exposure (insert k q m)).1 (notional_of (lookup k m))
              ≡ dec.add (exposure m).1 q.notional_usd)
    unfolding insert lookup
    exposure-insert k q [] =
        rw (insert, exposure-cons k q [])
          (
            add_nought_right (dec.add (exposure []).0 q.margin_usd),
            add_nought_right (dec.add (exposure []).1 q.notional_usd),
          )
    exposure-insert k q ((j, w) ∷ m) = elim (Bool-cases (str_eq j k)) [
      | inl here ↦
          rw (here, insert, margin_of, notional_of, exposure-cons j q m, exposure-cons j w m)
            (
              add_swap (exposure m).0 q.margin_usd w.margin_usd,
              add_swap (exposure m).1 q.notional_usd w.notional_usd,
            )
      | inr there ↦
          let (a, b) = exposure-insert k q m in
          rw
            (
              there,
              insert,
              margin_of,
              notional_of,
              exposure-cons j w (insert k q m),
              exposure-cons j w m,
            )
            (
              add_swap _ w.margin_usd _
                  ∙ ap (λ x. dec.add x w.margin_usd) a
                  ∙ add_swap (exposure m).0 q.margin_usd w.margin_usd,
              add_swap _ w.notional_usd _
                  ∙ ap (λ x. dec.add x w.notional_usd) b
                  ∙ add_swap (exposure m).1 q.notional_usd w.notional_usd,
            )
    ]

    exposure-erase :
        (k : String) (m : Dict (TrackedPosition D))
        → IsMap m
        → (dec.add (exposure (erase k m)).0 (margin_of (lookup k m)) ≡ (exposure m).0)
          × (dec.add (exposure (erase k m)).1 (notional_of (lookup k m)) ≡ (exposure m).1)
    unfolding erase lookup
    exposure-erase k [] h = (add_nought_right (exposure []).0, add_nought_right (exposure []).1)
    exposure-erase k ((j, w) ∷ m) (absent, h) = elim (Bool-cases (str_eq j k)) [
      | inl here ↦
          let gone : erase k m ≡ m = erase_absent k m (rw ((eq_iff j k).0 here) at absent) in
          rw (here, erase, margin_of, notional_of, gone, exposure-cons j w m) (refl, refl)
      | inr there ↦
          let (a, b) = exposure-erase k m h in
          rw
            (
              there,
              erase,
              margin_of,
              notional_of,
              exposure-cons j w (erase k m),
              exposure-cons j w m,
            )
            (
              add_swap _ w.margin_usd _ ∙ ap (λ x. dec.add x w.margin_usd) a,
              add_swap _ w.notional_usd _ ∙ ap (λ x. dec.add x w.notional_usd) b,
            )
    ]

    -- Under the laws of decimals, in a daemon that satisfies the invariant and has one position for each
    -- symbol: tracking a position replaces what its symbol had in the totals of margin and notional by the
    -- new amounts, and closing it takes out what it had; a symbol that is not held has nothing.
    pub exposure_balance :
        (now : Time) (symbol : String) (notional margin : D) (d : Daemon D)
        → Inv d
        → IsMap d.positions
        → let opened = track_position now symbol notional margin d in
          let closed = close_position symbol d in
          let margin_before = margin_of (lookup symbol d.positions) in
          let notional_before = notional_of (lookup symbol d.positions) in
          (dec.add opened.total_margin margin_before ≡ dec.add d.total_margin margin)
          × (dec.add opened.total_notional notional_before ≡ dec.add d.total_notional notional)
          × (dec.add closed.total_margin margin_before ≡ d.total_margin)
          × (dec.add closed.total_notional notional_before ≡ d.total_notional)
    unfolding track_position close_position recalc_exposure
    exposure_balance now symbol notional margin d v h =
        let (a, b) = exposure-insert symbol _ d.positions in
        let (e, f) = exposure-erase symbol d.positions h in
        rw (v.margin_current, v.notional_current) (a, b, e, f)
