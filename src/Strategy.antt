-- ===== src/Strategy.antt =====
-- internal/strategy: the selection of a strategy for each pair of perpetual futures.
pub mod Types
pub mod Selector
pub mod Intents
pub mod Evaluate
pub mod Basis
pub mod Correlation
pub mod Reversal
pub mod Entries
mod Examples
