-- ===== src/Domain.antt =====
-- The types of crates/hookbox: states, receipts, deliveries, events and errors.
mod State
mod Receipt
mod Errors
unfoldable pub use State.*
unfoldable pub use Receipt.*
pub use Errors.*
