-- ===== src/Memory.antt =====
-- demo_agent/conversation_memory.py: the versioned document behind every durable record of the
-- agent, and the optimistic update that all of its writers share.
pub mod State
pub mod Storage
pub mod Update
pub mod Activity
pub mod Saving
mod Examples
