-- ===== src/Alerting/Window.antt =====
-- The limit on the alerts of one minute.
use trading_challenge.Prelude.{
  ℕ, ◌+◌, ◌≤◌, ◌<◌, ◌^◌, ◌≡◌, refl, ap, ◌∙◌, Bool, false, Option, none, some, List, [], ◌∷◌, arith,
  String, if◌then◌else◌, pos, add64, lt_ℤ, Time, time_sub, All, Option-cases, inl, inr,
}
use trading_challenge.Alerting.{
  WebhookConfig, Alert, Alerter, minute, new_alerter, reset_window, send,
}

-- A call of `Send` with what it meets.
pub record Call : Type 0 where
  pub now : Time
  pub again : Time
  pub stamp : String
  pub answered : Bool
  pub alert : Alert

abbrev pub step : Call → Alerter → Alerter × Option Alert
step c a = send c.now c.again c.stamp c.answered c.alert a

-- How many alerts of a sequence of calls were posted and answered.
unfoldable pub delivered : List Call → Alerter → ℕ
delivered [] a = 0
delivered (c ∷ rest) a =
    let (a', posted) = step c a in
    let later = delivered rest a' in
    elim posted [ none ↦ later | some _ ↦ (if c.answered then 1 + later else later) ]

-- At most a minute after a time.
abbrev pub IsWithin : Time → Call → Type 0
IsWithin start c = lt_ℤ minute (time_sub c.now start) ≡ false

-- A call within the minute counts what it delivers, up to the limit.
count : Call → Option Alert → ℕ
count c none = 0
count c (some _) = if c.answered then 1 else 0

counted : (k n : ℕ) → k < n → n < 2 ^ 63 → add64 (pos k) (pos 1) ≡ pos (1 + k)
unfolding add64
counted k n h b = ground arith

step_lem :
    (c : Call) (a : Alerter) (n k : ℕ)
    → a.cfg.rate_limit_per_min ≡ pos n
    → a.sent_count ≡ pos k
    → n < 2 ^ 63
    → k ≤ n
    → IsWithin a.window_start c
    → let (a', posted) = step c a in
      (a'.cfg ≡ a.cfg)
      × (a'.window_start ≡ a.window_start)
      × (a'.sent_count ≡ pos (count c posted + k))
      × (count c posted + k ≤ n)
unfolding send reset_window count
step_lem c a n k l s b h within = rw (within, l, s) (ground (arith, counted k n))

delivered_cons :
    (c : Call) (rest : List Call) (a : Alerter)
    → let (a', posted) = step c a in delivered (c ∷ rest) a ≡ count c posted + delivered rest a'
unfolding delivered count
delivered_cons c rest a = elim (Option-cases (step c a).1) [
  | inl none_posted ↦ rw (none_posted, delivered) (omega arith)
  | inr (x, one_posted) ↦ rw (one_posted, delivered) (ground arith)
]

delivered_lem :
    (calls : List Call) (a : Alerter) (n k : ℕ)
    → a.cfg.rate_limit_per_min ≡ pos n
    → a.sent_count ≡ pos k
    → n < 2 ^ 63
    → k ≤ n
    → All (IsWithin a.window_start) calls
    → delivered calls a + k ≤ n
unfolding delivered
delivered_lem [] a n k l s b h w = omega arith
delivered_lem (c ∷ rest) a n k l s b h (within, w) =
    let (same, start, sent, le) = step_lem c a n k l s b h within in
    let (a', posted) = step c a in
    let later =
      delivered_lem rest a' n (count c posted + k) (ap (λ cfg. cfg.rate_limit_per_min) same ∙ l)
        sent b le (rw start w) in
    omega (arith, delivered_cons c rest a, later)

-- With a limit of n alerts for each minute, and any sequence of calls on an alerter that was just created,
-- all of them within a minute of its creation, at most n alerts are delivered.
pub delivered_limited :
    (cfg : WebhookConfig) (n : ℕ) (start : Time) (calls : List Call)
    → (new_alerter cfg start).cfg.rate_limit_per_min ≡ pos n
    → n < 2 ^ 63
    → All (IsWithin start) calls
    → delivered calls (new_alerter cfg start) ≤ n
unfolding new_alerter
delivered_limited cfg n start calls l b w =
    omega (arith, delivered_lem calls (new_alerter cfg start) n 0 l refl b (omega arith) w)
