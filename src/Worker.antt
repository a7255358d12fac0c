-- ===== src/Worker.antt =====
-- The background workers of crates/hookbox-server/src/worker.rs.
pub mod Dispatch
pub mod Loop
pub mod Leases
pub mod Shutdown
pub mod Outcomes
pub mod Settles
pub mod Batches
pub mod Health
