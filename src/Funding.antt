-- ===== src/Funding.antt =====
-- internal/funding: the regime detector of the funding strategy. `Window` and `Streak` hold the proofs.
pub mod Regime
pub mod Config
pub mod Engine
pub mod Exits
pub mod Cycles
pub mod Window
pub mod Streak
mod Examples
