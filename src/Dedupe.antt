-- ===== src/Dedupe.antt =====
-- crates/hookbox/src/dedupe.rs and the `DedupeStrategy` trait of crates/hookbox/src/traits.rs.
pub mod Strategy
pub mod Recent
pub mod Window
pub mod Layered
pub mod Memory
