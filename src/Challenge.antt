-- ===== src/Challenge.antt =====
-- internal/challenge: the compliance layer. `Config` and `Rules` are pure; `Daemon` is the state and
-- the operations that change it; `Intent` is the check of a proposed trade. The other modules hold
-- the proofs.
pub mod Config
pub mod Rules
pub mod Daemon
pub mod Intent
pub mod Levels
pub mod Invariant
pub mod Exposure
pub mod Steps
pub mod Admission
pub mod Profit
pub mod Stops
pub mod Days
mod Examples
