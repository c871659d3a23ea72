-- ===== src/Governance.antt =====
-- demo_agent/governance.py: the kill switch of instances and the deny-list of tools.
pub mod Patterns
pub mod Switches
pub mod Calls
pub mod Lasting
pub mod Denied
mod Examples
