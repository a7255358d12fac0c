-- ===== src/Serve.antt =====
-- crates/hookbox-server/src/serve.rs: how the server starts, and how it ends.
pub mod Assembly
pub mod Tasks
pub mod Workers
pub mod Inner
pub mod Waits
pub mod Drained
pub mod Supervised
pub mod Started
