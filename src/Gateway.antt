-- ===== src/Gateway.antt =====
-- demo_agent/event_gateway.py: signed webhooks of systems of record, each of which rings for a case.
pub mod Events
pub mod Handler
pub mod Guarded
mod Examples
