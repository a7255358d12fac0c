-- ===== src/Cli.antt =====
-- crates/hookbox-cli/src/commands.
pub mod Names
pub mod Replay
pub mod Historical
pub mod Replayed
pub mod Dlq
pub mod Duration
pub mod Serve
pub mod Listings
pub mod Counts
pub mod Tallied
pub mod Main
pub mod Safe
