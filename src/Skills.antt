-- ===== src/Skills.antt =====
-- demo_agent/skill_runtime.py: what a colleague may do in a run of a skill, and where it keeps its files.
pub mod Paths
pub mod Workspace
pub mod Grants
pub mod Session
mod Examples
