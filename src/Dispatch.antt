-- ===== src/Dispatch.antt =====
-- demo_agent/web.py, `_call_tool_safe`: the one way by which a run calls a tool.
pub mod Admission
pub mod Route
pub mod Reply
pub mod Sending
pub mod Authority
pub mod Backed
pub mod Once
pub mod Reported
mod Examples
