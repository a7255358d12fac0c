-- ===== src/Routes.antt =====
-- The HTTP routes of crates/hookbox-server/src/routes.
pub mod Health
pub mod Ingest
pub mod Admin
pub mod Authority
pub mod Redelivery
pub mod Listings
pub mod Listed
pub mod Router
