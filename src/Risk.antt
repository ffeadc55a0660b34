-- ===== src/Risk.antt =====
-- internal/risk: the risk engine. `Daemon` escalates a mode, `CircuitBreaker` watches the quotes of
-- each symbol, `Margin` the use of margin. The other modules hold the proofs.
pub mod Types
pub mod Config
pub mod Daemon
pub mod CircuitBreaker
pub mod Margin
pub mod Prune
pub mod Escalation
pub mod Steps
pub mod Mismatch
pub mod Limits
pub mod Breaker
pub mod Reports
pub mod Service
pub mod Rounds
mod Examples
