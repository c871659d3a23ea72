-- ===== src/Skills/Examples.antt =====
-- A skill that may update cases of one status: the theorems of Skills at it.
use ess_mcp.Prelude.{
  ℕ, ◌+◌, ◌-◌, ◌≤◌, ◌≡◌, refl, true, false, Option, none, some, [], ◌∷◌, arith, leb, ◌&&◌,
  if◌then◌else◌, length, ascii, codes, lower, lookup, insert, text_eq, member, drop_spaces, ok,
  negsuc,
}
use ess_mcp.Compliance.Identity.{strip}
use ess_mcp.Approvals.Json.{Json, bool, string, object, text_key, Fields, end, field}
use ess_mcp.Skills.Paths.{normalize}
use ess_mcp.Skills.Workspace.{
  Workspace, new_workspace, Entry, entry, store, write, read_bytes, file_record,
}
use ess_mcp.Skills.Workspace.Bounds.{IsBounded, write_reads_back}
use ess_mcp.Skills.Grants.{ToolGrant, parse_grants, grant_of, is_read_only, matches}
use ess_mcp.Skills.Session.{
  Python, SkillPackage, budget, max_budget, int_of, first_grant, start, grant_for, spend,
  check_autonomy, ran,
}
use ess_mcp.Skills.Session.Checks.{Run, Asked, fresh, Reaches, here, next, asks, spends, AllUsed}
use ess_mcp.Skills.Session.Budget.{spent-le-budget}

normal_brief : normalize ascii (some (codes " ./reports/brief.md ")) ≡ ok (codes "reports/brief.md")
unfolding normalize drop_spaces
normal_brief = refl

new_workspace-IsBounded : IsBounded new_workspace
new_workspace-IsBounded = record {
  counted = refl;
  total_bytes = omega arith;
  few = omega arith;
  small = tt;
  distinct = tt;
}

abbrev filled : Workspace
filled = record {
  files = (codes "reports/brief.md", file_record (codes "hello") (codes "model") 7) ∷ [];
  total = 5;
}

abbrev filed : Entry
filed = entry (codes "reports/brief.md") (file_record (codes "hello") (codes "model") 7)

wrote :
    write ascii
      (some (codes " ./reports/brief.md "))
      (codes "hello")
      (codes "model")
      7
      new_workspace
    ≡ ok (filed, filled)
unfolding write normalize drop_spaces store lookup insert
wrote = refl

write_reads_back_example :
    IsBounded filled
    × (read_bytes ascii (some (codes "reports/brief.md")) filled ≡ (
        if text_eq (codes "reports/brief.md") (codes "reports/brief.md")
        then ok (codes "hello")
        else read_bytes ascii (some (codes "reports/brief.md")) new_workspace))
unfolding normalize drop_spaces
write_reads_back_example =
    write_reads_back ascii (some (codes " ./reports/brief.md ")) (some (codes "reports/brief.md"))
      (codes "reports/brief.md") (codes "reports/brief.md") (codes "hello") (codes "model") 7
      new_workspace filled filed new_workspace-IsBounded normal_brief refl wrote

abbrev digit : ℕ → Option ℕ
digit c = if leb b'0' c && leb c b'9' then some (c - b'0') else none

abbrev allowing : Json
allowing = object (field (text_key (codes "allow")) (bool true) end)

abbrev python : Python
python = record { unicode = ascii; casefold = lower; digit = digit; loads = λ t. some allowing }

abbrev update_case : ToolGrant
update_case = record {
  server = codes "salesforce";
  tool = codes "update_case";
  argument = some (codes "status");
  values = codes "working" ∷ codes "closed" ∷ [];
}

parsed :
    parse_grants lower ascii
      (codes "salesforce__get_case salesforce__update_case(status=Working|Closed)")
    ≡ some (update_case ∷ [])
unfolding parse_grants is_read_only lower grant_of
parsed = refl

abbrev skill : SkillPackage
skill = record {
  name = codes "cases";
  metadata =
      (codes "autonomy-budget", codes "1") ∷ (codes "autonomy-check", codes "scripts/p.py") ∷ [];
  grants = update_case ∷ [];
}

abbrev working : Fields
working = field (text_key (codes "status")) (string (codes " Working ")) end

abbrev call : Asked
call = record {
  grant = update_case;
  server = codes "salesforce";
  tool = codes "update_case";
  args = working;
}

abbrev first : Run
first = fresh python skill false

abbrev asked_once : Run
asked_once = record first { asked = call ∷ [] }

abbrev asked_twice : Run
asked_twice = record first { asked = call ∷ call ∷ [] }

abbrev spent : Run
spent = record asked_twice {
  session =
      spend update_case (codes "salesforce") (codes "update_case") working 9 asked_twice.session;
  asked = call ∷ [];
}

abbrev overspent : Run
overspent = record spent {
  session = spend update_case (codes "salesforce") (codes "update_case") working 9 spent.session;
  asked = [];
}

granted : grant_for python first.session call.server call.tool call.args ≡ some update_case
unfolding grant_for start budget matches lower drop_spaces strip lookup text_eq int_of first_grant
    member
granted = refl

allowed : (check_autonomy python skill (ran true (codes "ok" ∷ []))).0 ≡ true
unfolding check_autonomy lookup text_eq
allowed = refl

-- Two calls whose checks overlap.
overlap : Reaches python 2 first overspent
unfolding start spend
overlap =
    next
      (next
        (next (next here (asks first call granted (omega arith)))
          (asks asked_once call granted (omega arith)))
        (spends asked_twice [] (call ∷ []) call (ran true (codes "ok" ∷ [])) 9 refl allowed))
      (spends spent [] [] call (ran true (codes "ok" ∷ [])) 9 refl allowed)

-- With a budget of one action two were spent, so the counter is below 0.
overlap_overspends : (budget python skill ≡ 1) × (overspent.session.remaining ≡ negsuc 0)
unfolding budget start spend lookup text_eq int_of drop_spaces strip
overlap_overspends = (refl, refl)

spent-le-budget_example :
    (length overspent.session.used ≤ (if false then 0 else budget python skill + (2 - 1)))
    × (budget python skill ≤ max_budget)
    × AllUsed python skill overspent.session.used
spent-le-budget_example = spent-le-budget python skill false 2 overspent (omega arith) overlap
