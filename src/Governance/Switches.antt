-- ===== src/Governance/Switches.antt =====
-- demo_agent/governance.py, `GovernanceState`: the switches, the ledger of decisions, and the file that
-- holds them over a restart. Whether the file could be written is an argument, as is the time.
use ess_mcp.Prelude.{
  ℕ, Bool, true, false, not, ◌||◌, Option, none, some, List, [], ◌∷◌, ◌++◌, if◌then◌else◌, last,
  Text, Unicode, codes, member, Dict, lookup, insert, remove,
}
use mathlib.Core.List.{reverse}
use ess_mcp.Compliance.Identity.{strip}
use ess_mcp.Governance.Patterns.{fnmatchcase}

pub record EnforcementDecision : Type 0 where
  pub allowed : Bool
  pub reason : Text
  pub rule : Text

-- `EnforcementDecision.blocked`
unfoldable pub blocked : EnforcementDecision → Bool
blocked d = not d.allowed

-- a value of the `detail` of an event
pub data Detail : Type 0 where
  one_text : Text → Detail
  texts : List Text → Detail

pub record GovernanceEvent : Type 0 where
  pub timestamp_ms : ℕ
  pub actor : Text
  pub action : Text
  pub target : Text
  pub detail : Dict Detail

-- What the file holds. An entry of its ledger that does not convert is `none`.
pub record Document : Type 0 where
  pub disabled_instances : Dict Text
  pub tool_denylist : List Text
  pub audit : List (Option GovernanceEvent)

-- `_disabled_instances`, `_tool_denylist`, `_audit`, and the file, `none` where it is missing or corrupt
pub record GovernanceState : Type 0 where
  pub disabled : Dict Text
  pub denylist : List Text
  pub audit : List GovernanceEvent
  pub file : Option Document

abbrev pub audit_limit : ℕ
audit_limit = 200

unfoldable pub converted : List (Option GovernanceEvent) → List GovernanceEvent
converted [] = []
converted (none ∷ entries) = converted entries
converted (some e ∷ entries) = e ∷ converted entries

-- `__init__` and `_load`
unfoldable pub load : Option Document → GovernanceState
load none = record { disabled = []; denylist = []; audit = []; file = none }
load (some d) = record {
  disabled = d.disabled_instances;
  denylist = d.tool_denylist;
  audit = last audit_limit (converted d.audit);
  file = some d;
}

unfoldable pub entries : List GovernanceEvent → List (Option GovernanceEvent)
entries [] = []
entries (e ∷ es) = some e ∷ entries es

-- `_persist`; a write that fails is only logged
unfoldable pub persist : Bool → GovernanceState → GovernanceState
persist false s = s
persist true s = record s {
  file = some (record {
    disabled_instances = s.disabled;
    tool_denylist = s.denylist;
    audit = entries (last audit_limit s.audit);
  });
}

-- `_record`
unfoldable pub record_event : GovernanceEvent → GovernanceState → GovernanceState
record_event e s = record s { audit = last audit_limit (s.audit ++ (e ∷ [])) }

-- `audit_log`, for a limit above 0
unfoldable pub audit_log : ℕ → GovernanceState → List GovernanceEvent
audit_log limit s = reverse (last limit s.audit)

-- `clear_audit`
unfoldable pub clear_audit : Bool → GovernanceState → GovernanceState
clear_audit written s = persist written (record s { audit = [] })

unfoldable pub event : ℕ → Text → Text → Text → Dict Detail → GovernanceEvent
event now actor action target detail = record {
  timestamp_ms = now;
  actor = actor;
  action = action;
  target = target;
  detail = detail;
}

abbrev pub or_default : Text → Text → Text
or_default [] other = other
or_default (c ∷ s) other = c ∷ s

-- `disable_instance`; without an identifier it raises a ValueError
unfoldable pub disable_instance :
    Bool → ℕ → Text → Text → Text → GovernanceState → Option GovernanceState
disable_instance written now [] reason actor s = none
disable_instance written now (c ∷ id) reason actor s = some (
    persist written (
      record_event
        (event now actor (codes "disable_instance") (c ∷ id)
          ((codes "reason", one_text reason) ∷ []))
        (record s {
          disabled =
              insert (c ∷ id) (or_default reason (codes "Disabled by control plane operator"))
                s.disabled;
        })))

-- `enable_instance`
unfoldable pub enable_instance : Bool → ℕ → Text → Text → GovernanceState → GovernanceState
enable_instance written now id actor s = elim (lookup id s.disabled) [
  | none ↦ s
  | some previous ↦ persist written (
      record_event
        (event now actor (codes "enable_instance") id
          ((codes "previousReason", one_text previous) ∷ []))
        (record s { disabled = remove id s.disabled }))
]

abbrev pub allow : EnforcementDecision
allow = record { allowed = true; reason = []; rule = [] }

unfoldable pub disabled_for : Option Text → EnforcementDecision
disabled_for none = allow
disabled_for (some []) = allow
disabled_for (some (c ∷ r)) = record {
  allowed = false;
  reason = c ∷ r;
  rule = codes "instance_disabled";
}

-- `is_instance_disabled`
unfoldable pub is_instance_disabled : Text → GovernanceState → EnforcementDecision
is_instance_disabled id s = disabled_for (lookup id s.disabled)

-- `if pat and pat not in cleaned: cleaned.append(pat)`
unfoldable pub add_pattern : List Text → Text → List Text
add_pattern kept [] = kept
add_pattern kept (c ∷ r) = if member (c ∷ r) kept then kept else kept ++ ((c ∷ r) ∷ [])

-- the loop of `set_tool_denylist`, with what it has kept so far
unfoldable pub cleaned : Unicode → List Text → List Text → List Text
cleaned u kept [] = kept
cleaned u kept (p ∷ patterns) = cleaned u (add_pattern kept (strip u p)) patterns

-- `set_tool_denylist`
unfoldable pub set_tool_denylist :
    Unicode → Bool → ℕ → List Text → Text → GovernanceState → GovernanceState
set_tool_denylist u written now patterns actor s =
    let kept = cleaned u [] patterns in
    persist written (
      record_event
        (event now actor (codes "set_tool_denylist") (codes "*")
          ((codes "patterns", texts kept) ∷ (codes "previous", texts s.denylist) ∷ []))
        (record s { denylist = kept }))

-- `str.lower`, whose table is Unicode's, is an argument.
module _ (lower : Text → Text) where
  -- whether the rule is about the tool
  unfoldable pub covers : Text → Text → Text → Bool
  covers server tool pat =
      let rule = lower pat in
      let server_lc = lower server in
      fnmatchcase (lower (server ++ (codes "." ++ tool))) rule
      || fnmatchcase (lower tool) rule
      || fnmatchcase server_lc rule
      || fnmatchcase (server_lc ++ codes ".*") rule

  unfoldable pub first_rule : Text → Text → List Text → EnforcementDecision
  first_rule server tool [] = allow
  first_rule server tool (pat ∷ patterns) =
      if covers server tool pat
      then record {
        allowed = false;
        reason =
            codes "Tool '"
            ++ (lower (server ++ (codes "." ++ tool))
                ++ (codes "' matches control-plane deny rule '" ++ (pat ++ codes "'")));
        rule = pat;
      }
      else first_rule server tool patterns

  -- `is_tool_blocked`
  unfoldable pub is_tool_blocked : Text → Text → GovernanceState → EnforcementDecision
  is_tool_blocked server tool s = first_rule server tool s.denylist

-- `record_tool_block`, which does not write the file
unfoldable pub record_tool_block :
    ℕ → Text → Text → EnforcementDecision → Text → Text → GovernanceState → GovernanceState
record_tool_block now server tool d run_id actor s =
    record_event
      (event now actor (codes "tool_blocked") (server ++ (codes "." ++ tool)) (
        (codes "rule", one_text d.rule)
        ∷ (codes "reason", one_text d.reason)
        ∷ (codes "runId", one_text run_id)
        ∷ []))
      s

-- `record_run_blocked`, which does not write the file
unfoldable pub record_run_blocked :
    ℕ → Text → EnforcementDecision → Text → Text → GovernanceState → GovernanceState
record_run_blocked now id d actor scenario s =
    record_event
      (event now actor (codes "run_blocked") id (
        (codes "rule", one_text d.rule)
        ∷ (codes "reason", one_text d.reason)
        ∷ (codes "scenario", one_text scenario)
        ∷ []))
      s
