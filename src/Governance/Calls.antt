-- ===== src/Governance/Calls.antt =====
-- demo_agent/governance.py: any calls of the state, and restarts, which read the file again.
use ess_mcp.Prelude.{ℕ, ◌≡◌, refl, Bool, Option, none, some, List, [], ◌∷◌, Text, Unicode}
use ess_mcp.Governance.Switches.{
  EnforcementDecision, Document, GovernanceState, load, clear_audit, disable_instance,
  enable_instance, set_tool_denylist, record_tool_block, record_run_blocked,
}

-- The calls of the state. The first argument says whether the file could be written; a restart reads
-- it again.
pub data Call : Type 0 where
  disables : Bool → ℕ → Text → Text → Text → Call
  enables : Bool → ℕ → Text → Text → Call
  denies : Bool → ℕ → List Text → Text → Call
  clears : Bool → Call
  notes_tool : ℕ → Text → Text → EnforcementDecision → Text → Text → Call
  notes_run : ℕ → Text → EnforcementDecision → Text → Text → Call
  restarts : Call

abbrev pub or_same : GovernanceState → Option GovernanceState → GovernanceState
or_same s none = s
or_same s (some t) = t

unfoldable pub after : Unicode → Call → GovernanceState → GovernanceState
after u (disables written now id reason actor) s =
    or_same s (disable_instance written now id reason actor s)
after u (enables written now id actor) s = enable_instance written now id actor s
after u (denies written now patterns actor) s = set_tool_denylist u written now patterns actor s
after u (clears written) s = clear_audit written s
after u (notes_tool now server tool d run_id actor) s =
    record_tool_block now server tool d run_id actor s
after u (notes_run now id d actor scenario) s = record_run_blocked now id d actor scenario s
after u restarts s = load s.file

abbrev pub after_all : Unicode → List Call → GovernanceState → GovernanceState
after_all u [] s = s
after_all u (c ∷ cs) s = after_all u cs (after u c s)

abbrev pub Each : (Call → Type 0) → List Call → Type 0
Each P [] = Unit {0}
Each P (c ∷ cs) = P c × Each P cs

pub file-load : (f : Option Document) → (load f).file ≡ f
unfolding load
file-load none = refl
file-load (some d) = refl
