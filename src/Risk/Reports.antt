-- ===== src/Risk/Reports.antt =====
-- cmd/risk-daemon/main.go: what the service sends out, as effects: messages to Redis and notices to the
-- webhook.
use trading_challenge.Prelude.{ℕ, Bool, List, [], ◌∷◌, ◌++◌, String, true, false, ℤ}
use trading_challenge.Risk.Types.{severity_string, Alert, State}
use trading_challenge.Risk.Margin as Margin

-- A piece of a printed text: `decimals n x` is x under the format %.nf.
pub data Piece {ℓ} (F : Type ℓ) : Type ℓ where
  text : String → Piece F
  decimals : ℕ → F → Piece F

-- `alerting.Alert`
pub record Notice {ℓ} (F : Type ℓ) : Type ℓ where
  pub level : String
  pub source : String
  pub message : List (Piece F)
  pub metric : String
  pub value : List (Piece F)

-- What is published on the stream of the risk events.
pub data Message {ℓ} (F : Type ℓ) : Type ℓ where
  of_alert : Alert F → Message F
  of_margin : Margin.Alert F → Message F
  of_trip : String → String → ℤ → Message F
  of_state : State F → Message F

-- `set_string key value ttl` has the time to live in seconds, 0 for no end.
pub data Effect {ℓ κ} (D : Type ℓ) (F : Type κ) : Type (ℓ ⊔ κ) where
  publish : Message F → Effect D F
  set_equity : D → ℕ → Effect D F
  set_string : String → Piece F → ℕ → Effect D F
  notify : Notice F → Effect D F

unfoldable pub level_string : Margin.Level → String
level_string Margin.warn = "WARN"
level_string Margin.critical = "CRITICAL"
level_string Margin.halt = "HALT"

unfoldable pub bool_string : Bool → String
bool_string true = "true"
bool_string false = "false"

module _ {ℓ κ} {D : Type ℓ} {F : Type κ} where
  -- `SendCritical` and `SendHalt`
  unfoldable pub send_plain : String → String → List (Piece F) → Effect D F
  send_plain level source message =
      notify (record { level = level; source = source; message = message; metric = ""; value = [] })

  -- The bodies of the loops over the alerts.
  unfoldable pub report_alert : Alert F → List (Effect D F)
  unfolding severity_string
  report_alert a =
      publish (of_alert a)
      ∷ notify (record {
        level = severity_string a.severity;
        source = a.source;
        message = text a.message ∷ [];
        metric = a.metric;
        value = decimals 4 a.value ∷ [];
      })
      ∷ []

  unfoldable pub report_alerts : List (Alert F) → List (Effect D F)
  unfolding report_alert
  report_alerts [] = []
  report_alerts (a ∷ rest) = report_alert a ++ report_alerts rest

  unfoldable pub report_mismatch : List (Alert F) → List (Effect D F)
  unfolding send_plain
  report_mismatch [] = []
  report_mismatch (a ∷ rest) =
      publish (of_alert a)
      ∷ send_plain "CRITICAL" "risk-daemon" (text "LEG MISMATCH: " ∷ text a.message ∷ [])
      ∷ report_mismatch rest

  unfoldable pub report_liquidation : List (Margin.Alert F) → List (Effect D F)
  unfolding send_plain
  report_liquidation [] = []
  report_liquidation (a ∷ rest) =
      publish (of_margin a)
      ∷ send_plain "CRITICAL" "margin-monitor" (
          text "LIQUIDATION WARNING: "
          ∷ text a.symbol
          ∷ text " buffer "
          ∷ decimals 1 a.value
          ∷ text "%"
          ∷ [])
      ∷ report_liquidation rest
