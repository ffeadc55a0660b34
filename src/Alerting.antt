-- ===== src/Alerting.antt =====
-- internal/alerting/webhook.go: the alerts to the webhook and their limit. The HTTP client is outside: each
-- call of `Send` takes whether the request was answered, and what it would print of the clock.
use trading_challenge.Prelude.{
  Bool, true, false, not, ◌||◌, ◌&&◌, Option, none, some, List, String, str_eq, if◌then◌else◌, ℤ,
  pos, add64, le_ℤ, lt_ℤ, Time, time_sub, eq_ℤ,
}
pub mod Window
mod Examples

pub record WebhookConfig : Type 0 where
  pub url : String
  pub enabled : Bool
  pub rate_limit_per_min : ℤ

pub record Alert : Type 0 where
  pub level : String
  pub source : String
  pub message : String
  pub metric : String
  pub value : String
  pub ts_utc : String

pub record Alerter : Type 0 where
  pub cfg : WebhookConfig
  pub sent_count : ℤ
  pub window_start : Time

-- `time.Minute`
abbrev pub minute : ℤ
minute = pos 60_000_000_000

unfoldable pub new_alerter : WebhookConfig → Time → Alerter
new_alerter cfg now = record {
  cfg =
      if eq_ℤ cfg.rate_limit_per_min (pos 0)
      then record cfg { rate_limit_per_min = pos 10 }
      else cfg;
  sent_count = pos 0;
  window_start = now;
}

-- The limit starts again once a minute has gone by; `again` is the second reading of the clock.
unfoldable pub reset_window : Time → Time → Alerter → Alerter
reset_window now again a =
    if lt_ℤ minute (time_sub now a.window_start)
    then record a { sent_count = pos 0; window_start = again }
    else a

-- `Send`: the alert that is posted, if one is. `stamp` is the text of the clock, `answered` is false where
-- the request is not built or gets no answer.
unfoldable pub send : Time → Time → String → Bool → Alert → Alerter → Alerter × Option Alert
unfolding reset_window
send now again stamp answered alert a₀ =
    let a = reset_window now again a₀ in
    if not a₀.cfg.enabled || str_eq a₀.cfg.url ""
    then (a₀, none)
    else if le_ℤ a.cfg.rate_limit_per_min a.sent_count
    then (a, none)
    else (
      if answered then record a { sent_count = add64 a.sent_count (pos 1) } else a,
      some (if str_eq alert.ts_utc "" then record alert { ts_utc = stamp } else alert),
    )

unfoldable pub send_critical :
    Time → Time → String → Bool → String → String → Alerter → Alerter × Option Alert
unfolding send
send_critical now again stamp answered source message a =
    send now again stamp answered
      (record {
        level = "CRITICAL";
        source = source;
        message = message;
        metric = "";
        value = "";
        ts_utc = "";
      })
      a

unfoldable pub send_halt :
    Time → Time → String → Bool → String → String → Alerter → Alerter × Option Alert
unfolding send
send_halt now again stamp answered source message a =
    send now again stamp answered
      (record {
        level = "HALT";
        source = source;
        message = message;
        metric = "";
        value = "";
        ts_utc = "";
      })
      a
