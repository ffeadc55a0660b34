-- ===== src/Execution.antt =====
-- internal/execution: the execution of an intent, leg by leg, on the exchange.
pub mod Types
pub mod Orders
pub mod Sizing
pub mod Summary
pub mod Executor
pub mod Reconcile
pub mod Unwind
pub mod Hedge
pub mod Bounds
pub mod Budget
pub mod Router
pub mod Once
pub mod Gates
mod Examples
