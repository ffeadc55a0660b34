-- ===== src/Arb/Window.antt =====
-- The pruning of the samples is not seen in the statistics.
use trading_challenge.Prelude.{
  ◌≡◌, refl, sym, ◌∙◌, ap, true, false, List, [], ◌∷◌, ◌++◌, select, All, arith, String,
  if◌then◌else◌, ℤ, pos, ◌+ℤ◌, int_laws, ◌≤ℤ◌, lt_ℤ, sub64, IsSmall, sub64_small, insert,
  lookup-insert, Float64, Bool-cases, inl, inr,
}
use mathlib.Core.List.{append-nil, append_assoc}
use text.Mathlib.TextPositions.{eq_refl}
use trading_challenge.Arb.Pair.{pair_id}
use trading_challenge.Arb.Stats.{SpreadSample, prune, in_window, compute_rolling_stats}
use trading_challenge.Arb.Engine.{
  PairState, Engine, pair_state, observe, update_prices, day_ms, keep_ms,
}

module _ {ℓ} {F : Type ℓ} where
  -- What is pruned stands before any later cutoff.
  in_window-prune :
      (early late : ℤ) (samples : List (SpreadSample F))
      → early ≤ℤ late
      → in_window late (prune early samples) ≡ in_window late samples
  unfolding in_window prune select
  in_window-prune early late [] h = refl
  in_window-prune early late (s ∷ samples) h = elim (Bool-cases (lt_ℤ s.ts_ms early)) [
    | inl old ↦
        let older : lt_ℤ s.ts_ms late ≡ true = ground arith in
        rw (old, older) (in_window-prune early late samples h)
    | inr new ↦ rw new refl
  ]

  in_window-append :
      (cutoff : ℤ) (xs ys : List (SpreadSample F))
      → in_window cutoff (xs ++ ys) ≡ in_window cutoff xs ++ in_window cutoff ys
  unfolding in_window select
  in_window-append cutoff [] ys = refl
  in_window-append cutoff (s ∷ xs) ys = elim (Bool-cases (lt_ℤ s.ts_ms cutoff)) [
    | inl old ↦ rw old (in_window-append cutoff xs ys)
    | inr new ↦ rw new (ap (λ l. s ∷ l) (in_window-append cutoff xs ys))
  ]

-- The prices of both legs at a time.
abbrev pub Prices {ℓ} : Type ℓ → Type ℓ
Prices F = F × F × ℤ

-- An hour, by which a quote may be ahead of the clock.
abbrev hour_ms : ℤ
hour_ms = pos 3_600_000

cutoff_lem :
    (ts now : ℤ)
    → IsSmall ts
    → IsSmall now
    → ts ≤ℤ now +ℤ hour_ms
    → sub64 ts keep_ms ≤ℤ sub64 now day_ms
cutoff_lem ts now small small' near =
    rw (sub64_small ts keep_ms small (ground arith), sub64_small now day_ms small' (ground arith))
      (omega int_laws)

module _ {ℓ} {F : Type ℓ} ⦃flt : Float64 F⦄ where
  -- What is recorded of a quote: nothing unless both prices are positive.
  abbrev pub recorded : Prices F → List (SpreadSample F)
  recorded (pp, hp, ts) =
      if (if flt.lt (flt.lit 0 0) pp then flt.lt (flt.lit 0 0) hp else false)
      then record { spread = flt.log (flt.div pp hp); ts_ms = ts } ∷ []
      else []

  abbrev pub history : List (Prices F) → List (SpreadSample F)
  history [] = []
  history (q ∷ quotes) = recorded q ++ history quotes

  -- The calls of `UpdatePrices` for a pair, one after the other.
  pub run : (primary hedge : String) → List (Prices F) → Engine F → Engine F
  run primary hedge [] e = e
  run primary hedge (q ∷ quotes) e =
      run primary hedge quotes (update_prices primary hedge q.0 q.1 q.2 e)

  pair_state-insert :
      (pid : String) (ps : PairState F) (e : Engine F)
      → pair_state pid (record e { state = insert pid ps e.state }) ≡ ps
  unfolding pair_state
  pair_state-insert pid ps e = rw (lookup-insert pid pid ps e.state, eq_refl pid, pair_state) refl

  update-samples :
      (primary hedge : String) (q : Prices F) (e : Engine F) (now : ℤ)
      → IsSmall q.2
      → IsSmall now
      → q.2 ≤ℤ now +ℤ hour_ms
      → let pid = pair_id primary hedge in
        let cutoff = sub64 now day_ms in
        in_window cutoff (pair_state pid (update_prices primary hedge q.0 q.1 q.2 e)).samples
        ≡ in_window cutoff ((pair_state pid e).samples ++ recorded q)
  unfolding update_prices pair_state observe
  update-samples primary hedge (pp, hp, ts) e now small small' near =
      let pid = pair_id primary hedge in
      let both = if flt.lt (flt.lit 0 0) pp then flt.lt (flt.lit 0 0) hp else false in
      elim (Bool-cases both) [
        | inl priced ↦
            rw (pair_state-insert pid _ e, priced)
              (in_window-prune (sub64 ts keep_ms) (sub64 now day_ms) _
                (cutoff_lem ts now small small' near))
        | inr unpriced ↦
            rw (pair_state-insert pid _ e, unpriced)
              (ap (λ l. in_window (sub64 now day_ms) l) (sym (append-nil _)))
      ]

  run-samples :
      (primary hedge : String) (quotes : List (Prices F)) (e : Engine F) (now : ℤ)
      → IsSmall now
      → All (λ (q : Prices F). IsSmall q.2 × (q.2 ≤ℤ now +ℤ hour_ms)) quotes
      → let pid = pair_id primary hedge in
        let cutoff = sub64 now day_ms in
        in_window cutoff (pair_state pid (run primary hedge quotes e)).samples
        ≡ in_window cutoff ((pair_state pid e).samples ++ history quotes)
  unfolding run
  run-samples primary hedge [] e now small h =
      ap (λ l. in_window (sub64 now day_ms) l) (sym (append-nil _))
  run-samples primary hedge (q ∷ quotes) e now small ((small', near), h) =
      let pid = pair_id primary hedge in
      let cutoff = sub64 now day_ms in
      let before = (pair_state pid e).samples in
      let e' = update_prices primary hedge q.0 q.1 q.2 e in
      run-samples primary hedge quotes e' now small h
      ∙ in_window-append cutoff (pair_state pid e').samples (history quotes)
      ∙ ap (λ l. l ++ in_window cutoff (history quotes))
          (update-samples primary hedge q e now small' small near)
      ∙ sym (in_window-append cutoff (before ++ recorded q) (history quotes))
      ∙ ap (λ l. in_window cutoff l) (append_assoc before (recorded q) (history quotes))

  -- The statistics of the day are those of everything that was ever recorded, although samples are
  -- dropped on the way, as long as no quote is more than an hour ahead of the clock and no time is near
  -- the ends of its range.
  pub day_stats-history :
      (primary hedge : String) (quotes : List (Prices F)) (e : Engine F) (now : ℤ)
      → IsSmall now
      → All (λ (q : Prices F). IsSmall q.2 × (q.2 ≤ℤ now +ℤ hour_ms)) quotes
      → let pid = pair_id primary hedge in
        compute_rolling_stats (pair_state pid (run primary hedge quotes e)).samples now day_ms
        ≡ compute_rolling_stats ((pair_state pid e).samples ++ history quotes) now day_ms
  unfolding compute_rolling_stats
  day_stats-history primary hedge quotes e now small h =
      rw (run-samples primary hedge quotes e now small h) refl
