-- ===== src/Postgres.antt =====
-- crates/hookbox-postgres: the database, its statements, and the two storage traits on it.
pub mod Exec
pub mod Columns
pub mod Rows
pub mod Decoded
pub mod Rules
pub mod Receipts
pub mod Deliveries
pub mod Inserts
pub mod Store
pub mod Advice
pub mod Consistent
pub mod Claimed
pub mod Keeping
pub mod Steps
pub mod Moves
pub mod Histories
pub mod Replays
pub mod Interface
pub mod Reads
