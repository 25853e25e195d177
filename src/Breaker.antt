-- ===== src/Breaker.antt =====
-- The failure-streak circuit breaker: hub/src/breaker.ts. The callbacks `onEvent` and `onChange` are
-- the list of their calls.
pub mod State
pub mod Keys
pub mod Recording
pub mod Lanes
pub mod Persist
pub mod Classify
pub mod Counts
pub mod Failures
pub mod Streaks
pub mod Outages
pub mod Recovery
pub mod Examples
