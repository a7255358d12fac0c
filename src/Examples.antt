-- ===== src/Examples.antt =====
-- Each theorem at concrete values.
mod Data
mod Transitions
mod Backoff
mod Dedupe
mod Postgres
mod Rows
mod Pipeline
mod Worker
mod Routes
mod Keys
mod Providers
mod Server
mod Serve
mod Duration
