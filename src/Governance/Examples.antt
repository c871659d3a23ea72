-- ===== src/Governance/Examples.antt =====
-- An operator disables an instance and denies the tools of a server: the theorems of Governance at that.
use ess_mcp.Prelude.{
  ◌≡◌, refl, true, false, none, some, List, [], ◌∷◌, Text, ascii, codes, lower, any, insert,
  text_eq, drop_spaces,
}
use ess_mcp.Compliance.Identity.{strip}
use ess_mcp.Governance.Patterns.{fnmatchcase}
use ess_mcp.Governance.Switches.{
  blocked, GovernanceState, load, persist, record_event, disable_instance, is_instance_disabled,
  set_tool_denylist, is_tool_blocked, covers, event, one_text,
}
use ess_mcp.Governance.Calls.{disables, enables, clears, restarts, after_all}
use ess_mcp.Governance.Lasting.{disabled_stays}
use ess_mcp.Governance.Denied.{is_rule_for, denied_stays}

abbrev start : GovernanceState
start = load none

abbrev disabled_once : GovernanceState
disabled_once = persist true (
    record_event
      (event 5 (codes "op") (codes "disable_instance") (codes "i1")
        ((codes "reason", one_text (codes "misuse")) ∷ []))
      (record start { disabled = (codes "i1", codes "misuse") ∷ [] }))

disabled_done :
    disable_instance true 5 (codes "i1") (codes "misuse") (codes "op") start ≡ some disabled_once
unfolding disable_instance load insert
disabled_done = refl

other_id : text_eq (codes "i2") (codes "i1") ≡ false
unfolding text_eq
other_id = refl

disabled_stays_example :
    blocked (
      is_instance_disabled (codes "i1") (
        after_all ascii
          (enables true 6 (codes "i2") (codes "op") ∷ clears true ∷ restarts ∷ [])
          disabled_once))
    ≡ true
disabled_stays_example =
    disabled_stays ascii 5 (codes "i1") (codes "misuse") (codes "op")
      (enables true 6 (codes "i2") (codes "op") ∷ clears true ∷ restarts ∷ []) start disabled_once
      disabled_done ((refl, other_id), (refl, (tt, tt)))

abbrev rules : List Text
rules = codes "  Salesforce.* " ∷ []

has_rule : any (is_rule_for ascii lower (codes "salesforce") (codes "update_case")) rules ≡ true
unfolding covers fnmatchcase strip lower text_eq drop_spaces
has_rule = refl

denied_stays_example :
    blocked (
      is_tool_blocked lower (codes "salesforce") (codes "update_case") (
        after_all ascii
          (disables true 7 (codes "i1") [] (codes "op") ∷ restarts ∷ [])
          (set_tool_denylist ascii true 5 rules (codes "op") start)))
    ≡ true
denied_stays_example =
    denied_stays ascii lower (codes "salesforce") (codes "update_case") 5 rules (codes "op")
      (disables true 7 (codes "i1") [] (codes "op") ∷ restarts ∷ []) start has_rule (refl, (tt, tt))
