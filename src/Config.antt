-- ===== src/Config.antt =====
-- crates/hookbox-server/src/config.rs: the configuration, its validation and its normalization.
pub mod Float
pub mod Sections
pub mod Emitters
pub mod Names
pub mod Validate
pub mod Backends
pub mod WellFormed
pub mod Normalize
pub mod Normalized
