-- ===== src/Scanner/Limits.antt =====
-- What the guardrails count within a day: the trades that were opened.
use trading_challenge.Prelude.{
  ℕ, suc, ◌+◌, ◌<◌, ◌≤◌, ◌^◌, ◌≡◌, refl, ◌∙◌, ap, true, false, none, arith, String, pos, le_ℤ,
  add64, Time, Date, utc_date, same_date, Float64,
}
use trading_challenge.Scanner.Guardrails.{
  GuardrailConfig, Guardrails, register_alert_received, halt, resume, maybe_reset_daily,
  check_pre_trade, record_trade_opened, record_trade_result, daily_status, new_guardrails,
}
use trading_challenge.Scanner.Gate.{
  Call, alerted, asked, opened, closed, queried, stopped, operate, step,
}

-- A call on the given day, other than the opening of a trade.
abbrev pub IsOther {ℓ} : {F : Type ℓ} → Date → Call F → Type 0
IsOther day (alerted _ _) = Unit
IsOther day (asked today _ _) = same_date (utc_date today) day ≡ true
IsOther day (opened _ _ _) = ⊥
IsOther day (closed today _ _) = same_date (utc_date today) day ≡ true
IsOther day (queried today) = same_date (utc_date today) day ≡ true
IsOther day (stopped _) = Unit
IsOther day operate = Unit

-- The guardrails that a day of calls can lead to, with the number of trades opened and the number of
-- passes that are open: a check that the gate passes gives a pass, the opening of a trade uses one up, at
-- most k passes are open at a time, and a pass may lapse. Between a check and the opening that uses its
-- pass all else may happen, other checks and openings too.
pub data Reaches {ℓ} {F : Type ℓ} ⦃flt : Float64 F⦄ (day : Date) (k : ℕ) (g : Guardrails F)
    : (opened passes : ℕ) → Guardrails F → Type ℓ where
  start : Reaches day k g 0 0 g
  check :
      {n p : ℕ} {h : Guardrails F}
      → Reaches day k g n p h
      → (today now : Time) (alert_id : String) → same_date (utc_date today) day ≡ true
      → (check_pre_trade today now alert_id h).1 ≡ none
      → p < k
      → Reaches day k g n (suc p) (check_pre_trade today now alert_id h).0
  trade :
      {n p : ℕ} {h : Guardrails F}
      → Reaches day k g n (suc p) h
      → (today now : Time) (alert_id : String) → same_date (utc_date today) day ≡ true
      → Reaches day k g (suc n) p (record_trade_opened today now alert_id h)
  lapse : {n p : ℕ} {h : Guardrails F} → Reaches day k g n (suc p) h → Reaches day k g n p h
  other :
      {n p : ℕ} {h : Guardrails F}
      → Reaches day k g n p h
      → (c : Call F) → IsOther day c
      → Reaches day k g n p (step c h)

-- A counter far below the end of the type.
next_count : (n m : ℕ) → n < m → m < 2 ^ 63 → add64 (pos n) (pos 1) ≡ pos (suc n)
unfolding add64
next_count n m h b = ground arith

module _ {ℓ} {F : Type ℓ} ⦃flt : Float64 F⦄ where
  pub no_reset :
      (today : Time) (day : Date) (g : Guardrails F)
      → same_date (utc_date today) day ≡ true
      → g.last_reset_date ≡ day
      → maybe_reset_daily today g ≡ g
  unfolding maybe_reset_daily
  no_reset today day g e d = rw (d, e) refl

  other_lem :
      (day : Date) (c : Call F) (h : Guardrails F)
      → IsOther day c
      → h.last_reset_date ≡ day
      → ((step c h).last_reset_date ≡ day)
        × ((step c h).trades_today ≡ h.trades_today)
        × ((step c h).cfg ≡ h.cfg)
  unfolding step
  other_lem day (alerted now alert_id) h o d = unfold register_alert_received in (d, refl, refl)
  other_lem day (asked today now alert_id) h o d =
      unfold check_pre_trade in rw (no_reset today day h o d) (d, refl, refl)
  other_lem day (opened today now alert_id) h o d = absurd o
  other_lem day (closed today alert_id r) h o d =
      unfold record_trade_result in rw (no_reset today day h o d) (d, refl, refl)
  other_lem day (queried today) h o d =
      unfold daily_status in rw (no_reset today day h o d) (d, refl, refl)
  other_lem day (stopped why) h o d = unfold halt in (d, refl, refl)
  other_lem day operate h o d = unfold resume in (d, refl, refl)

  passed_below :
      (today now : Time) (alert_id : String) (h : Guardrails F)
      → (check_pre_trade today now alert_id h).1 ≡ none
      → let h' = maybe_reset_daily today h in le_ℤ h'.cfg.max_trades_per_day h'.trades_today ≡ false
  unfolding check_pre_trade
  passed_below today now alert_id h e = ground arith

  passed_lem :
      (day : Date) (today now : Time) (alert_id : String) (h : Guardrails F) (n limit : ℕ)
      → same_date (utc_date today) day ≡ true
      → (check_pre_trade today now alert_id h).1 ≡ none
      → h.last_reset_date ≡ day
      → h.trades_today ≡ pos n
      → h.cfg.max_trades_per_day ≡ pos limit
      → n < limit
  passed_lem day today now alert_id h n limit e passed d t l =
      let below : le_ℤ (pos limit) (pos n) ≡ false =
        rw (no_reset today day h e d, t, l) at (passed_below today now alert_id h passed) in
      ground (arith, below)

  opened_lem :
      (day : Date) (today now : Time) (alert_id : String) (h : Guardrails F) (n most : ℕ)
      → same_date (utc_date today) day ≡ true
      → h.last_reset_date ≡ day
      → h.trades_today ≡ pos n
      → n < most
      → most < 2 ^ 63
      → let h' = record_trade_opened today now alert_id h in
        (h'.last_reset_date ≡ day) × (h'.trades_today ≡ pos (suc n)) × (h'.cfg ≡ h.cfg)
  unfolding record_trade_opened
  opened_lem day today now alert_id h n most e d t less range =
      rw (no_reset today day h e d)
        (d, ap (λ x. add64 x (pos 1)) t ∙ next_count n most less range, refl)

  module _ (day : Date) (k limit : ℕ) (g : Guardrails F) (today_g : g.last_reset_date ≡ day)
      (none_yet : g.trades_today ≡ pos 0) (bound : g.cfg.max_trades_per_day ≡ pos limit)
      (range : limit + k < 2 ^ 63) (some_pass : 0 < k) where
    day_Inv :
        {n p : ℕ} {h : Guardrails F}
        → Reaches day k g n p h
        → (h.last_reset_date ≡ day)
          × (h.trades_today ≡ pos n)
          × (h.cfg ≡ g.cfg)
          × (n + p < limit + k)
          × (p ≤ k)
    unfolding step
    day_Inv start = (today_g, none_yet, refl, omega arith, omega arith)
    day_Inv (check {n} {p} {h} r today now alert_id e passed more) =
        let (d, t, c, m, _) = day_Inv r in
        let (d', t', c') = other_lem day (asked today now alert_id) h e d in
        let below =
          passed_lem day today now alert_id h n limit e passed d t
            (ap (λ cfg. cfg.max_trades_per_day) c ∙ bound) in
        (d', t' ∙ t, c' ∙ c, omega arith, omega arith)
    day_Inv (trade {n} {p} {h} r today now alert_id e) =
        let (d, t, c, m, l) = day_Inv r in
        let (d', t', c') =
          opened_lem day today now alert_id h n (limit + k) e d t (omega arith) range in
        (d', t', c' ∙ c, omega arith, omega arith)
    day_Inv (lapse r) = let (d, t, c, m, l) = day_Inv r in (d, t, c, omega arith, omega arith)
    day_Inv (other {n} {p} {h} r c o) =
        let (d, t, s, m, l) = day_Inv r in
        let (d', t', s') = other_lem day c h o d in (d', t' ∙ t, s' ∙ s, m, l)

  -- On the day on which the guardrails are made, whatever is called and in whatever order, as long as each
  -- opening of a trade uses up a pass that the gate gave earlier that day, and at most k passes, one at
  -- least, are open at a time: the trades opened are at most k - 1 more than the limit for a day, which is
  -- not negative, so with one pass at a time at most the limit; and the counter is the number of trades
  -- opened.
  pub trades_limited :
      (start_time : Time) (cfg : GuardrailConfig F) (k limit : ℕ) {n p : ℕ} {h : Guardrails F}
      → cfg.max_trades_per_day ≡ pos limit
      → limit + k < 2 ^ 63
      → 0 < k
      → Reaches (utc_date start_time) k (new_guardrails start_time cfg) n p h
      → (n < limit + k) × (h.trades_today ≡ pos n)
  unfolding new_guardrails
  trades_limited start_time cfg k limit bound range some_pass r =
      let (_, t, _, m, _) =
        day_Inv (utc_date start_time) k limit (new_guardrails start_time cfg) refl refl bound range
          some_pass r in
      (omega arith, t)
