-- ===== src/Guardrails.antt =====
-- demo_agent/guardrails.py: the policy decision of a long text, and the log of decisions.
pub mod Windows
pub mod Verdict
pub mod Cover
pub mod Severity
pub mod Versions
pub mod History
pub mod Saved
mod Examples
