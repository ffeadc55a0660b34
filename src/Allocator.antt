-- ===== src/Allocator.antt =====
-- internal/allocator: the capital allocator. `Caps` holds the proofs.
pub mod Engine
pub mod Caps
mod Examples
