-- ===== src/EventsApi.antt =====
-- The events API (packages/events-api/src): who may send events, and which events it takes.
pub mod Auth
pub mod Validation
pub mod Accepted
pub mod Again
mod Examples
