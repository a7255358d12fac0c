-- ===== src/Bootstrap.antt =====
-- crates/hookbox-server/src/bootstrap.rs and emitter_factory.rs: what the server builds from its
-- configuration.
pub mod Verifiers
pub mod Steps
pub mod Keys
pub mod Built
pub mod Factory
