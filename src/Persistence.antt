-- ===== src/Persistence.antt =====
-- packages/persistence: the services that keep jobs, runs, requests and events in a database.
pub mod Idempotency
pub mod Tables
pub mod Jobs
pub mod Outbox
pub mod Events
mod Examples
