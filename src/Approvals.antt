-- ===== src/Approvals.antt =====
-- demo_agent/tool_approvals.py: durable confirmation of tool calls by the person who asked for them.
pub mod Identity
pub mod Json
pub mod Call
pub mod Record
pub mod Tasks
pub mod Gate
pub mod Change
mod Examples
