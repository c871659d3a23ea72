-- ===== src/Compliance.antt =====
-- demo_agent/compliance_case.py: the durable receipt of one compliance email, from the claim to the
-- confirmed closure.
pub mod Identity
pub mod Record
pub mod Workflow
mod Examples
