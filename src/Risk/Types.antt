-- ===== src/Risk/Types.antt =====
-- internal/risk/types.go: the modes, the severities, the state and the alerts.
use trading_challenge.Prelude.{ℕ, String, str_eq, if◌then◌else◌, ℤ}

pub data Mode : Type 0 where
  running paused safe flatten halted : Mode

-- The number of a mode in the source.
unfoldable pub rank : Mode → ℕ
rank running = 0
rank paused = 1
rank safe = 2
rank flatten = 3
rank halted = 4

-- `Mode.String`
unfoldable pub mode_string : Mode → String
mode_string running = "RUNNING"
mode_string paused = "PAUSED"
mode_string safe = "SAFE"
mode_string flatten = "FLATTEN"
mode_string halted = "HALTED"

unfoldable pub parse_mode : String → Mode
parse_mode s =
    if str_eq s "RUNNING"
    then running
    else if str_eq s "PAUSED"
    then paused
    else if str_eq s "SAFE"
    then safe
    else if str_eq s "FLATTEN"
    then flatten
    else if str_eq s "HALTED"
    then halted
    else running

pub data Severity : Type 0 where
  info warn critical : Severity

-- `Severity.String`
unfoldable pub severity_string : Severity → String
severity_string info = "INFO"
severity_string warn = "WARN"
severity_string critical = "CRITICAL"

pub record Alert {ℓ} (F : Type ℓ) : Type ℓ where
  pub ts_ms : ℤ
  pub source : String
  pub severity : Severity
  pub message : String
  pub metric : String
  pub value : F
  pub threshold : F

pub record State {ℓ} (F : Type ℓ) : Type ℓ where
  pub mode : Mode
  pub ts_ms : ℤ
  pub drawdown_pct : F
  pub daily_drawdown_pct : F
  pub peak_equity_usd : F
  pub current_equity_usd : F
  pub error_rate_5m_pct : F
  pub reason : String
  pub challenge_phase : String
