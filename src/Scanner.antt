-- ===== src/Scanner.antt =====
-- internal/scanner: the guardrails of the directional scanner, its risk manager and its tracker of outcomes.
-- `Gate`, `Limits` and `Streak` hold the proofs of the guardrails, `Outcomes` those of the tracker.
pub mod Guardrails
pub mod Types
pub mod RiskManager
pub mod Market
pub mod Indicators
pub mod Momentum
pub mod Profile
pub mod Detectors
pub mod Engine
pub mod Scoring
pub mod Scan
pub mod Emission
pub mod Alerts
pub mod Cooldown
pub mod Panics
pub mod Performance
pub mod Tracker
pub mod Outcomes
pub mod Gate
pub mod Limits
pub mod Streak
mod Examples
mod ScanExamples
