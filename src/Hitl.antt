-- ===== src/Hitl.antt =====
-- demo_agent/hitl.py: questions to a manager that a run waits for.
pub mod Queue
pub mod Settled
pub mod Fifo
mod Examples
