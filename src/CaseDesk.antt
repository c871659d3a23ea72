-- ===== src/CaseDesk.antt =====
-- demo_agent/case_desk.py: durable cases that arrive as events and are worked one turn at a time.
pub mod Event
pub mod Bindings
pub mod File
pub mod Worker
pub mod Agenda
pub mod Index
mod Examples
