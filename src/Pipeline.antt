-- ===== src/Pipeline.antt =====
-- The ingest pipeline of crates/hookbox/src/pipeline.rs over the traits of
-- crates/hookbox/src/traits.rs.
pub mod Traits
pub mod Ingest
pub mod Contract
pub mod Counters
pub mod Advisory
pub mod Durable
