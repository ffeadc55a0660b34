-- ===== src/Risk/Prune.antt =====
-- The in-place loop of `pruneOlderThan` keeps the events that are not older, in order.
use trading_challenge.Prelude.{
  ℕ, zero, suc, ◌+◌, ◌≡◌, refl, sym, ap, ◌∙◌, inl, inr, some, List, [], ◌∷◌, ◌++◌, arith, ℤ, le_ℤ,
  length, length-append, get_elem?, set, take, select, Bool-cases, if◌then◌else◌,
}
use mathlib.Core.List.{append_assoc, append-nil}
use trading_challenge.Risk.Daemon.{FillEvent, prune_loop, prune_older_than}

module _ {ℓ} {A : Type ℓ} where
  -- The array at work: the items kept so far, then others, then those that are still to be read.
  get_elem?-append :
      (xs ys : List A) (k : ℕ) → k ≡ length xs → get_elem? (xs ++ ys) k ≡ get_elem? ys 0
  get_elem?-append [] ys zero e = refl
  get_elem?-append [] ys (suc k) e = absurd (omega arith)
  get_elem?-append (x ∷ xs) ys zero e = absurd (omega arith)
  get_elem?-append (x ∷ xs) ys (suc k) e = get_elem?-append xs ys k (omega arith)

  set-append :
      (xs ys : List A) (i : ℕ) (v : A) → i ≡ length xs → set (xs ++ ys) i v ≡ xs ++ set ys 0 v
  set-append [] ys zero v e = refl
  set-append [] ys (suc i) v e = absurd (omega arith)
  set-append (x ∷ xs) ys zero v e = absurd (omega arith)
  set-append (x ∷ xs) ys (suc i) v e = ap (◌∷◌ x) (set-append xs ys i v (omega arith))

  take-append : (xs ys : List A) (i : ℕ) → i ≡ length xs → take i (xs ++ ys) ≡ xs
  take-append [] ys zero e = refl
  take-append [] ys (suc i) e = absurd (omega arith)
  take-append (x ∷ xs) ys zero e = absurd (omega arith)
  take-append (x ∷ xs) ys (suc i) e = ap (◌∷◌ x) (take-append xs ys i (omega arith))

  -- A write to the first item behind the kept ones moves it over; as many others remain.
  overwrite :
      (junk rest : List A) (e : A)
      → (junk' : List A) × (set (junk ++ (e ∷ rest)) 0 e ≡ e ∷ (junk' ++ rest))
        × (length junk' ≡ length junk)
  overwrite [] rest e = ([], refl, refl)
  overwrite (j ∷ js) rest e = (
    js ++ (e ∷ []),
    ap (◌∷◌ e) (sym (append_assoc js (e ∷ []) rest)),
    omega (arith, length-append js (e ∷ [])),
  )

module _ {ℓ} {D : Type ℓ} where
  prune_loop_read :
      (cutoff : ℤ) (n k i : ℕ) (events : List (FillEvent D)) (e : FillEvent D)
      → get_elem? events k ≡ some e
      → prune_loop cutoff (suc n) k i events ≡ (
          if le_ℤ cutoff e.ts_ms
          then prune_loop cutoff n (k + 1) (i + 1) (set events i e)
          else prune_loop cutoff n (k + 1) i events)
  unfolding prune_loop
  prune_loop_read cutoff n k i events e h = ground (arith, h)

  prune_loop_lem :
      (cutoff : ℤ) (n k i : ℕ) (kept junk rest : List (FillEvent D))
      → n ≡ length rest
      → k ≡ length kept + length junk
      → i ≡ length kept
      → let out = prune_loop cutoff n k i (kept ++ (junk ++ rest)) in
        take out.0 out.1 ≡ kept ++ select (λ e. le_ℤ cutoff e.ts_ms) rest
  unfolding select
  prune_loop_lem cutoff zero k i kept junk [] hn hk hi =
      unfold prune_loop in take-append kept (junk ++ []) i hi ∙ sym (append-nil kept)
  prune_loop_lem cutoff zero k i kept junk (e ∷ es) hn hk hi = absurd (omega arith)
  prune_loop_lem cutoff (suc n) k i kept junk [] hn hk hi = absurd (omega arith)
  prune_loop_lem cutoff (suc n) k i kept junk (e ∷ es) hn hk hi =
      let read : get_elem? (kept ++ (junk ++ (e ∷ es))) k ≡ some e =
        ap (λ l. get_elem? l k) (sym (append_assoc kept junk (e ∷ es)))
        ∙ get_elem?-append (kept ++ junk) (e ∷ es) k (omega (arith, length-append kept junk)) in
      let (junk', moved, same) = overwrite junk es e in
      let written : set (kept ++ (junk ++ (e ∷ es))) i e ≡ (kept ++ (e ∷ [])) ++ (junk' ++ es) =
        set-append kept (junk ++ (e ∷ es)) i e hi
        ∙ ap (λ l. kept ++ l) moved
        ∙ sym (append_assoc kept (e ∷ []) (junk' ++ es)) in
      let left : kept ++ (junk ++ (e ∷ es)) ≡ kept ++ ((junk ++ (e ∷ [])) ++ es) =
        ap (λ l. kept ++ l) (sym (append_assoc junk (e ∷ []) es)) in
      rw (prune_loop_read cutoff n k i (kept ++ (junk ++ (e ∷ es))) e read)
        (elim (Bool-cases (le_ℤ cutoff e.ts_ms)) [
          | inl yes_kept ↦ rw yes_kept (
              rw written (
                prune_loop_lem cutoff n (k + 1) (i + 1) (kept ++ (e ∷ [])) junk' es (omega arith)
                  (omega (arith, length-append kept (e ∷ []), same))
                  (omega (arith, length-append kept (e ∷ [])))
                ∙ append_assoc kept (e ∷ []) (select (λ x. le_ℤ cutoff x.ts_ms) es)))
          | inr dropped ↦ rw dropped (
              rw left (
                prune_loop_lem cutoff n (k + 1) i kept (junk ++ (e ∷ [])) es (omega arith)
                  (omega (arith, length-append junk (e ∷ []))) hi))
        ])

  -- The in-place loop keeps, in order, exactly the events at or after the cutoff.
  pub prune_older_than-eq-select :
      (events : List (FillEvent D)) (cutoff : ℤ)
      → prune_older_than events cutoff ≡ select (λ e. le_ℤ cutoff e.ts_ms) events
  unfolding prune_older_than
  prune_older_than-eq-select events cutoff =
      prune_loop_lem cutoff (length events) 0 0 [] [] events refl (omega arith) refl
