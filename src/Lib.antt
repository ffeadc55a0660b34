-- ===== src/Lib.antt =====
-- A trading program for a funded-account challenge: services in Go that exchange trade intents, market
-- data and alerts over Redis streams. A strategy engine proposes an intent (internal/arb/types.go), the
-- compliance layer and the capital allocator accept or refuse it, an execution router places its orders,
-- and a risk engine watches equity, errors, margins and quotes. The library models the parts that decide:
--
-- - Alerting: internal/alerting, the limit on the alerts. Proofs: Window.
-- - Arb: internal/arb/types.go, the trade intent.
-- - Challenge: internal/challenge. Challenge/Config and Challenge/Rules are config.go and rules.go,
--   Challenge/Daemon is daemon.go (UpdateEquity is update_equity, RecordTrade is record_trade, and so
--   on), Challenge/Intent is its method ValidateIntent. Proofs: Levels (the drawdown levels), Exposure
--   (the totals), Invariant and Steps (calls in any order), Admission (which intents pass), Profit,
--   Stops (stop-losses) and Days (trading days).
-- - Risk: internal/risk. Risk/Types and Risk/Config, Risk/Daemon (daemon.go), Risk/CircuitBreaker,
--   Risk/Margin, Risk/Service for the loop of cmd/risk-daemon
--   and Risk/Reports for what it sends. Proofs: Prune,
--   Escalation, Steps, Mismatch, Limits, Breaker, and Rounds for the service.
-- - Exchange: internal/exchange/types.go and exchange.go; the exchange itself is a parameter.
-- - Execution: internal/execution and cmd/execution-router. Execution/Orders has the calls of the exchange
--   (pollOrderStatus, emergencyUnwind and the attempts at a leg), Execution/Sizing and Execution/Summary the
--   amounts, Execution/Executor is Execute, Execution/Reconcile the rest of executor.go, Execution/Router
--   the loop of the service. Proofs: Unwind, Hedge, Bounds, Budget, Once
--   and Gates (the router after the risk service).
-- - Strategy: internal/strategy. Strategy/Selector has the decisions for one pair, Strategy/Intents the
--   intents, Strategy/Evaluate is Evaluate, Strategy/Basis and
--   Strategy/Correlation the trackers of basis.go and correlation.go. Proofs: Reversal and Entries.
-- - Arb/Engine, Arb/Stats and Arb/Evaluate: the spread engine of internal/arb/engine.go. Arb/Pair is what
--   its intents share with those of the other engines. Proofs: Window and Reversal.
-- - Scanner: internal/scanner. Scanner/Guardrails is guardrails.go, Scanner/Types types.go,
--   Scanner/RiskManager risk_manager.go, Scanner/Indicators, Scanner/Momentum and
--   Scanner/Profile have indicators.go, and Scanner/Tracker with the statistics of Scanner/Performance is
--   tracker.go. Scanner/Detectors has a child for each detector_*.go, with what they share in
--   Scanner/Market. Scanner/Engine, Scanner/Scoring and Scanner/Scan are engine.go: the state and its
--   updates, scoreAndBuild, and Scan. Proofs: Gate, Limits, Streak, Outcomes, Emission, Alerts, Cooldown
--   and Panics.
-- - Allocator: internal/allocator in Allocator/Engine. Proofs: Caps.
-- - Funding: internal/funding. Funding/Regime is regime.go, Funding/Config and Funding/Engine have the
--   entries of engine.go, Funding/Exits its exits. Proofs: Window, Streak and Cycles.
-- - Prelude: what these share. Prelude/Clock is the part of package time that is used, Prelude/Words the
--   64-bit integers, Prelude/Maps the maps with text keys, Prelude/Numbers the amounts.
--
-- The correspondence. A struct is a record and a method a function that returns the new record with its
-- results; a mutex makes a method atomic, so that concurrent calls are a list of calls in some order (the
-- type Call of Challenge/Steps, Risk/Steps, Scanner/Gate and Scanner/Cooldown). The alerter has no mutex,
-- and each service calls it from one goroutine: Call of Alerting/Window. Each reading of the clock is an
-- argument.
-- An error is an Option or a data type with what the message prints; log lines are left out. A map is a
-- list of entries in its order of iteration, and a nil pointer in a map does not occur. Arithmetic of int
-- and int64 wraps at 64 bits. A panic, where a slice can go out of range, is none.
--
-- Parameters. shopspring/decimal and float64 are the interfaces Decimal, Float64 and Convert of
-- Prelude/Numbers. A theorem that needs laws of decimals takes them as IsOrdered or IsField, which state
-- that addition is exact, that the operations respect the order, and that rounding does; decimals divide
-- with 16 places. Of float64, one theorem asks for exactness at its amounts, and the two of
-- Scanner/Cooldown that no number is less than itself; no other law of it is assumed.
-- Prelude/Fixed meets all laws with fixed-point integers, and the examples compute with it.
--
-- Loops are structural, or count rounds as the source does: prune_loop of Risk/Daemon runs as many rounds
-- as the list has items, polling asks ten times, unwinding tries four times, and a leg is tried once more
-- than the configured number of retries. The executor passes the state of the world from call to call:
-- each reading of the clock, each wait and each request is a call of the parameter Exchange.
--
-- Not modelled: the clients of Redis, PostgreSQL and the exchange, and the main functions other than those
-- of the router and the risk service, which are input and output; reading configuration files; and
-- the market data client.
pub mod Prelude
pub mod Alerting
pub mod Arb
pub mod Exchange
pub mod Execution
pub mod Strategy
pub mod Challenge
pub mod Risk
pub mod Scanner
pub mod Allocator
pub mod Funding
