-- ===== src/Alerting/Examples.antt =====
-- The limit on the alerts, with two alerts for each minute.
use trading_challenge.Prelude.{ℕ, ◌*◌, ◌≤◌, refl, true, List, [], ◌∷◌, pos, arith, time_sub}
use trading_challenge.Alerting.{WebhookConfig, new_alerter}
use trading_challenge.Alerting.Window.{Call, delivered, delivered_limited}

abbrev webhook : WebhookConfig
webhook = record { url = "http://localhost/hook"; enabled = true; rate_limit_per_min = pos 2 }

abbrev call : ℕ → Call
call seconds = record {
  now = pos (seconds * 1_000_000_000);
  again = pos (seconds * 1_000_000_000);
  stamp = "2026-01-01T00:00:00Z";
  answered = true;
  alert = record {
    level = "WARN";
    source = "risk-daemon";
    message = "equity poll failed";
    metric = "";
    value = "";
    ts_utc = "";
  };
}

abbrev calls : List Call
calls = call 1 ∷ call 2 ∷ call 3 ∷ []

delivered_limited_example : delivered calls (new_alerter webhook (pos 0)) ≤ 2
unfolding new_alerter time_sub
delivered_limited_example =
    delivered_limited webhook 2 (pos 0) calls refl (omega arith) (refl, (refl, (refl, tt)))
