-- ===== src/Scanner/Detectors.antt =====
-- internal/scanner/detector_*.go: the six detectors of the scanner. Each looks at a market state and gives its
-- signals; `none` is a panic.
pub mod FundingExtreme
pub mod OiAbsorption
pub mod RangeVwap
pub mod LiqSweep
pub mod TrendPullback
pub mod MultiTf
