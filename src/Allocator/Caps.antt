-- ===== src/Allocator/Caps.antt =====
-- The allocator's decision: which intents pass, what a decision changes, and that it only ever grows.
use trading_challenge.Prelude.{
  ◌≡◌, refl, sym, ◌∙◌, ap, ◌↔◌, ◌⊎◌, inl, inr, true, false, none, some, List, [], ◌∷◌, arith,
  String, if◌then◌else◌, Bool-cases, Option-cases, Float64,
}
use mathlib.Core.Bool.{false≢true}
use trading_challenge.Arb.{TradeIntent}
use trading_challenge.Allocator.Engine.{
  Engine, Pool, funding, basis, notional, set_notional, pool_of, is_exempt, per_leg_notional,
  max_capital, scale_factor, max_alloc, combined_max, available_for, check_limits, approve,
  release_notional,
}

module _ {ℓ} {F : Type ℓ} ⦃flt : Float64 F⦄ where
  -- An amount that a pool can take: within its cap, within the combined cap and within what is left
  -- next to the cash reserve. (A comparison with a float that is no number is false.)
  pub record IsWithin (p : Pool) (amount : F) (e : Engine F) : Type 0 where
    pub pool_cap : flt.lt (max_alloc p e) (flt.add (notional p e) amount) ≡ false
    pub combined_cap :
        flt.lt (combined_max e) (flt.add (flt.add e.funding_notional e.basis_notional) amount)
        ≡ false
    pub capital_left : flt.lt (available_for (max_capital e) e) amount ≡ false

  check_limits_iff :
      (p : Pool) (amount : F) (e : Engine F)
      → (check_limits p amount e ≡ none) ↔ IsWithin p amount e
  unfolding check_limits
  check_limits_iff p amount e = (
    λ h. record {
      pool_cap = ground arith;
      combined_cap = ground arith;
      capital_left = ground arith;
    },
    λ v. rw (v.pool_cap, v.combined_cap, v.capital_left) refl,
  )

  approve_pool :
      (intent : TradeIntent F) (e : Engine F) (p : Pool)
      → is_exempt intent.strategy ≡ false
      → pool_of intent.strategy ≡ some p
      → ((approve intent e).1 ≡ none) ↔ (check_limits p (per_leg_notional intent.legs) e ≡ none)
  unfolding approve
  approve_pool intent e p x q =
      elim (Option-cases (check_limits p (per_leg_notional intent.legs) e)) [
        | inl n ↦ rw (x, q, n) ((λ _. refl), (λ _. refl))
        | inr (r, n) ↦ rw (x, q, n) ((λ h. h), (λ h. h))
      ]

  -- An intent is approved exactly when it is an exit or a safety trade by its name, or its strategy has
  -- a pool that can take the amount of one leg.
  pub approve_iff :
      (intent : TradeIntent F) (e : Engine F)
      → ((approve intent e).1 ≡ none) ↔ (
          (is_exempt intent.strategy ≡ true)
          ⊎ ((p : Pool) × (pool_of intent.strategy ≡ some p)
              × IsWithin p (per_leg_notional intent.legs) e))
  unfolding approve
  approve_iff intent e = elim (Bool-cases (is_exempt intent.strategy)) [
    | inl x ↦ rw x ((λ _. inl refl), (λ _. refl))
    | inr x ↦ (
      λ h. elim (Option-cases (pool_of intent.strategy)) [
        | inl n ↦ absurd (ground arith)
        | inr (p, q) ↦ inr (p, q, (check_limits_iff p _ e).0 ((approve_pool intent e p x q).0 h))
      ],
      λ s. elim s [
        | inl y ↦ absurd (false≢true (sym x ∙ y))
        | inr (p, q, w) ↦ (approve_pool intent e p x q).1 ((check_limits_iff p _ e).1 w)
      ],
    )
  ]

  -- The cap of each pool is kept.
  abbrev pub IsCapped : Engine F → Type 0
  IsCapped e = (p : Pool) → flt.lt (max_alloc p e) (notional p e) ≡ false

  set_notional-IsCapped :
      (p : Pool) (amount : F) (e : Engine F)
      → IsCapped e
      → flt.lt (max_alloc p e) amount ≡ false
      → IsCapped (set_notional p amount e)
  unfolding max_alloc max_capital scale_factor
  set_notional-IsCapped funding amount e c h funding = h
  set_notional-IsCapped funding amount e c h basis = c basis
  set_notional-IsCapped basis amount e c h funding = c funding
  set_notional-IsCapped basis amount e c h basis = h

  approve-IsCapped :
      (intent : TradeIntent F) (e : Engine F) → IsCapped e → IsCapped (approve intent e).0
  unfolding approve
  approve-IsCapped intent e c = elim (Bool-cases (is_exempt intent.strategy)) [
    | inl x ↦ rw x c
    | inr x ↦ elim (Option-cases (pool_of intent.strategy)) [
      | inl n ↦ rw (x, n) c
      | inr (p, q) ↦
          let amount = per_leg_notional intent.legs in
          elim (Option-cases (check_limits p amount e)) [
            | inl n ↦
                rw (x, q, n)
                  (set_notional-IsCapped p (flt.add (notional p e) amount) e c
                    ((check_limits_iff p amount e).0 n).pool_cap)
            | inr (r, n) ↦ rw (x, q, n) c
          ]
    ]
  ]

  unfoldable pub approve_all : List (TradeIntent F) → Engine F → Engine F
  approve_all [] e = e
  approve_all (intent ∷ rest) e = approve_all rest (approve intent e).0

  -- As long as the equity figures do not change, no series of intents brings a pool over its cap.
  pub approve_all-IsCapped :
      (intents : List (TradeIntent F)) (e : Engine F)
      → IsCapped e
      → IsCapped (approve_all intents e)
  unfolding approve_all
  approve_all-IsCapped [] e c = c
  approve_all-IsCapped (intent ∷ rest) e c =
      approve_all-IsCapped rest (approve intent e).0 (approve-IsCapped intent e c)

  put_back :
      (p : Pool) (amount : F) (e : Engine F)
      → flt.sub (flt.add (notional p e) amount) amount ≡ notional p e
      → flt.lt (notional p e) (flt.lit 0 0) ≡ false
      → let e' = set_notional p (flt.add (notional p e) amount) e in
        let left = flt.sub (notional p e') amount in
        set_notional p (if flt.lt left (flt.lit 0 0) then flt.lit 0 0 else left) e' ≡ e
  put_back funding amount e exact nonneg = rw (exact, nonneg) refl
  put_back basis amount e exact nonneg = rw (exact, nonneg) refl

  release_pool :
      (strategy : String) (amount : F) (e : Engine F) (p : Pool)
      → pool_of strategy ≡ some p
      → let left = flt.sub (notional p e) amount in
        release_notional strategy amount e
        ≡ set_notional p (if flt.lt left (flt.lit 0 0) then flt.lit 0 0 else left) e
  unfolding release_notional
  release_pool strategy amount e p q = rw (q, release_notional) refl

  approved_state :
      (intent : TradeIntent F) (e : Engine F) (p : Pool)
      → is_exempt intent.strategy ≡ false
      → pool_of intent.strategy ≡ some p
      → check_limits p (per_leg_notional intent.legs) e ≡ none
      → (approve intent e).0
        ≡ set_notional p (flt.add (notional p e) (per_leg_notional intent.legs)) e
  unfolding approve
  approved_state intent e p x q n = rw (x, q, n) refl

  -- Releasing the amount of an intent that has just been approved for a pool gives back the allocator
  -- as it was, if the sum and the difference of the pool's notional and the amount are exact and the
  -- notional is not negative.
  pub release-approve :
      (intent : TradeIntent F) (e : Engine F) (p : Pool)
      → is_exempt intent.strategy ≡ false
      → pool_of intent.strategy ≡ some p
      → (approve intent e).1 ≡ none
      → let amount = per_leg_notional intent.legs in
        flt.sub (flt.add (notional p e) amount) amount ≡ notional p e
        → flt.lt (notional p e) (flt.lit 0 0) ≡ false
        → release_notional intent.strategy amount (approve intent e).0 ≡ e
  release-approve intent e p x q passed exact nonneg =
      let amount = per_leg_notional intent.legs in
      ap (release_notional intent.strategy amount)
        (approved_state intent e p x q ((approve_pool intent e p x q).0 passed))
      ∙ release_pool intent.strategy amount _ p q
      ∙ put_back p amount e exact nonneg
