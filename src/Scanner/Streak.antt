-- ===== src/Scanner/Streak.antt =====
-- The consecutive losses of a day: the counter against the results themselves.
use trading_challenge.Prelude.{
  ℕ, suc, ◌+◌, ◌^◌, ◌<◌, ◌≡◌, ◌≢◌, refl, ◌∙◌, ap, Bool, true, ◌&&◌, none, List, [], ◌∷◌, length,
  arith, String, if◌then◌else◌, inl, inr, pos, le_ℤ, add64, add64_exact, ◌+ℤ◌, Time, Date, utc_date,
  same_date, All, Float64, Bool-cases,
}
use trading_challenge.Scanner.Guardrails.{
  Guardrails, maybe_reset_daily, check_pre_trade, record_trade_result,
}
use trading_challenge.Scanner.Limits.{no_reset}

-- A result: its time, its alert and its size in R.
abbrev pub Result {ℓ} : Type ℓ → Type ℓ
Result F = Time × String × F

next_loss : (k : ℕ) → k + 1 < 2 ^ 63 → add64 (pos k) (pos 1) ≡ pos (k + 1)
next_loss k h =
    let more : pos k +ℤ pos 1 ≡ pos (k + 1) = unfold ◌+ℤ◌ in ground arith in
    add64_exact (pos k) (pos 1) (rw more (ground arith)) ∙ more

module _ {ℓ} {F : Type ℓ} ⦃flt : Float64 F⦄ where
  abbrev is_loss : Result F → Bool
  is_loss (_, _, r) = flt.lt r (flt.lit 0 0)

  abbrev all_losses : List (Result F) → Bool
  all_losses [] = true
  all_losses (r ∷ rs) = is_loss r && all_losses rs

  -- The length of the longest end of the list that holds losses only.
  abbrev pub trailing_losses : List (Result F) → ℕ
  trailing_losses [] = 0
  trailing_losses (r ∷ rs) = if all_losses (r ∷ rs) then suc (length rs) else trailing_losses rs

  unfoldable pub record_results : List (Result F) → Guardrails F → Guardrails F
  record_results [] g = g
  record_results ((today, alert_id, r) ∷ rs) g =
      record_results rs (record_trade_result today alert_id r g)

  trailing_all :
      (rs : List (Result F))
      → (if all_losses rs then 0 + length rs else trailing_losses rs) ≡ trailing_losses rs
  trailing_all [] = refl
  trailing_all (r ∷ rs) = ground arith

  result_lem :
      (day : Date) (today : Time) (alert_id : String) (r : F) (g : Guardrails F) (k : ℕ)
      → same_date (utc_date today) day ≡ true
      → g.last_reset_date ≡ day
      → g.consecutive_losses ≡ pos k
      → let g' = record_trade_result today alert_id r g in
        (g'.last_reset_date ≡ day)
        × (g'.cfg ≡ g.cfg)
        × (g'.consecutive_losses
            ≡ (if flt.lt r (flt.lit 0 0) then add64 (pos k) (pos 1) else pos 0))
  unfolding record_trade_result
  result_lem day today alert_id r g k e d c = rw (no_reset today day g e d) (d, refl, rw c refl)

  results_lem :
      (day : Date) (rs : List (Result F)) (g : Guardrails F) (k : ℕ)
      → All (λ r. same_date (utc_date r.0) day ≡ true) rs
      → g.last_reset_date ≡ day
      → g.consecutive_losses ≡ pos k
      → k + length rs < 2 ^ 63
      → let g' = record_results rs g in
        (g'.last_reset_date ≡ day)
        × (g'.cfg ≡ g.cfg)
        × (g'.consecutive_losses
            ≡ pos (if all_losses rs then k + length rs else trailing_losses rs))
  unfolding record_results
  results_lem day [] g k a d c b = (d, refl, c ∙ ap pos (omega arith))
  results_lem day ((today, alert_id, r) ∷ rs) g k (e, a) d c b =
      let (d', same, c') = result_lem day today alert_id r g k e d c in
      let g' = record_trade_result today alert_id r g in
      elim (Bool-cases (flt.lt r (flt.lit 0 0))) [
        | inl loss ↦
            let counted : g'.consecutive_losses ≡ pos (k + 1) =
              c' ∙ (rw loss (next_loss k (omega arith))) in
            let (d'', same', c'') = results_lem day rs g' (k + 1) a d' counted (omega arith) in
            (d'', same' ∙ same, c'' ∙ ap pos (ground arith))
        | inr win ↦
            let counted : g'.consecutive_losses ≡ pos 0 = c' ∙ rw win refl in
            let (d'', same', c'') = results_lem day rs g' 0 a d' counted (omega arith) in
            (d'', same' ∙ same, c'' ∙ ap pos (rw win (trailing_all rs)))
      ]

  losses_refused :
      (today now : Time) (alert_id : String) (g : Guardrails F)
      → maybe_reset_daily today g ≡ g
      → le_ℤ g.cfg.max_consecutive_losses g.consecutive_losses ≡ true
      → (check_pre_trade today now alert_id g).1 ≢ none
  unfolding check_pre_trade
  losses_refused today now alert_id g same most = rw same (ground arith)

  -- After any results on one day, of which none was recorded before, the counter is the number of
  -- losses since the last result that was not one, and once that number reaches the limit, every trade
  -- of that day is refused. (There are fewer results than an int can count.)
  pub loss_streak :
      (day : Date) (rs : List (Result F)) (g : Guardrails F) (today now : Time) (alert_id : String)
      → All (λ r. same_date (utc_date r.0) day ≡ true) rs
      → same_date (utc_date today) day ≡ true
      → g.last_reset_date ≡ day
      → g.consecutive_losses ≡ pos 0
      → length rs < 2 ^ 63
      → let g' = record_results rs g in
        (g'.consecutive_losses ≡ pos (trailing_losses rs))
        × (le_ℤ g.cfg.max_consecutive_losses (pos (trailing_losses rs)) ≡ true
            → (check_pre_trade today now alert_id g').1 ≢ none)
  loss_streak day rs g today now alert_id a e d c b =
      let (d', same, c') = results_lem day rs g 0 a d c (omega arith) in
      let counted : (record_results rs g).consecutive_losses ≡ pos (trailing_losses rs) =
        c' ∙ ap pos (trailing_all rs) in
      (
        counted,
        λ most.
            losses_refused today now alert_id (record_results rs g)
              (no_reset today day (record_results rs g) e d') (rw (same, counted) most),
      )
