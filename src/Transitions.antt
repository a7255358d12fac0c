-- ===== src/Transitions.antt =====
-- crates/hookbox/src/transitions.rs: labels, the retry rule, and the state that a receipt
-- shows, derived from its deliveries.
pub mod Labels
pub mod Retry
pub mod Backoff
pub mod Delays
pub mod Latest
pub mod Newest
pub mod Aggregate
