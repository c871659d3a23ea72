-- ===== src/Skills/Session.antt =====
-- demo_agent/skill_runtime.py, `SkillSession` and `check_autonomy`: how many of the approved actions a run
-- has left, and the policy check of one of them. The labels of grants and the field `approvals`, which
-- nothing here reads, are left out; the field `package` is `skill`. The tables of Unicode's digits, `str.casefold`, `json.loads` and
-- what the bundled script answers are arguments.
pub mod Checks
pub mod Budget
use ess_mcp.Prelude.{
  ℕ, zero, suc, ◌+◌, ◌*◌, Bool, true, false, not, ◌&&◌, ◌||◌, Option, none, some, List, [], ◌∷◌,
  ◌++◌, leb, ◌==◌, if◌then◌else◌, take, Text, Unicode, codes, text_eq, Dict, lookup, ℤ, pos, negsuc,
  pred_ℤ, is_positive, clamp,
}
use ess_mcp.Compliance.Identity.{strip}
use ess_mcp.Approvals.Json.{Json, bool, string, object, Fields}
use ess_mcp.Skills.Grants.{ToolGrant, field_at, matches}

pub record Python : Type 0 where
  pub unicode : Unicode
  pub casefold : Text → Text
  pub digit : ℕ → Option ℕ
  pub loads : Text → Option Json

pub record SkillPackage : Type 0 where
  pub name : Text
  pub metadata : Dict Text
  pub grants : List ToolGrant

abbrev or_text : Text → Option Text → Text
or_text other none = other
or_text other (some t) = t

-- `metadata.get(key, other)`
unfoldable pub metadata_at : Text → Text → SkillPackage → Text
metadata_at key other p = or_text other (lookup key p.metadata)

-- the digits of an `int`, with single underscores between them; the first argument says whether a digit
-- has just been read
digits : Python → Bool → ℕ → Text → Option ℕ
digits py after_digit n [] = if after_digit then some n else none
digits py after_digit n (c ∷ s) = elim (py.digit c) [
  | some d ↦ digits py true (10 * n + d) s
  | none ↦ if after_digit && (c == b'_') then digits py false n s else none
]

minus : Option ℕ → Option ℤ
minus none = none
minus (some zero) = some (pos 0)
minus (some (suc n)) = some (negsuc n)

plus : Option ℕ → Option ℤ
plus none = none
plus (some n) = some (pos n)

signed : Python → Text → Option ℤ
unfolding digits minus plus
signed py [] = none
signed py (c ∷ s) =
    if c == b'-'
    then minus (digits py false 0 s)
    else if c == b'+'
    then plus (digits py false 0 s)
    else plus (digits py false 0 (c ∷ s))

-- `int(text)`, `none` for a ValueError
unfoldable pub int_of : Python → Text → Option ℤ
unfolding signed strip
int_of py text = signed py (strip py.unicode text)

abbrev or_int : ℤ → Option ℤ → ℤ
or_int other none = other
or_int other (some n) = n

abbrev pub max_budget : ℕ
max_budget = 80

abbrev pub max_turns_limit : ℕ
max_turns_limit = 80

abbrev has_grants : List ToolGrant → Bool
has_grants [] = false
has_grants (g ∷ gs) = true

-- `SkillPackage.budget`
unfoldable pub budget : Python → SkillPackage → ℕ
unfolding metadata_at int_of
budget py p =
    if has_grants p.grants
    then clamp max_budget
        (or_int (pos 3) (int_of py (metadata_at (codes "autonomy-budget") (codes "3") p)))
    else 0

-- `SkillPackage.max_turns`
unfoldable pub max_turns : Python → SkillPackage → ℕ
unfolding metadata_at int_of
max_turns py p =
    clamp max_turns_limit
      (or_int (pos 0) (int_of py (metadata_at (codes "max-turns") (codes "0") p)))

pub record Use : Type 0 where
  pub server : Text
  pub tool : Text
  pub grant : ToolGrant
  pub at : ℕ
  pub args : Fields

pub record SkillSession : Type 0 where
  pub skill : SkillPackage
  pub dry_run : Bool
  pub remaining : ℤ
  pub used : List Use

-- `SkillSession.start`
unfoldable pub start : Python → SkillPackage → Bool → SkillSession
start py p dry_run = record {
  skill = p;
  dry_run = dry_run;
  remaining = if dry_run then pos 0 else pos (budget py p);
  used = [];
}

-- the first grant that matches
unfoldable pub first_grant : Python → List ToolGrant → Text → Text → Fields → Option ToolGrant
first_grant py [] server tool args = none
first_grant py (g ∷ gs) server tool args =
    if matches py.casefold py.unicode g server tool args
    then some g
    else first_grant py gs server tool args

-- `grant_for`
unfoldable pub grant_for : Python → SkillSession → Text → Text → Fields → Option ToolGrant
grant_for py s server tool args =
    if s.dry_run || not (is_positive s.remaining)
    then none
    else first_grant py s.skill.grants server tool args

-- `spend`
unfoldable pub spend : ToolGrant → Text → Text → Fields → ℕ → SkillSession → SkillSession
spend g server tool args now s = record s {
  remaining = pred_ℤ s.remaining;
  used = s.used ++ (record { server = server; tool = tool; grant = g; at = now; args = args } ∷ []);
}

-- How the bundled script ended: it could not be run or timed out, or it ran, with the lines that it
-- printed.
pub data ScriptEnd : Type 0 where
  raised : ScriptEnd
  ran : (exit_code_is_0 : Bool) → List Text → ScriptEnd

last_line : List Text → Option Text
last_line [] = none
last_line (l ∷ []) = some l
last_line (l ∷ k ∷ ls) = last_line (k ∷ ls)

verdict_of : Python → ScriptEnd → Option Json
unfolding last_line
verdict_of py raised = none
verdict_of py (ran false ls) = none
verdict_of py (ran true ls) = elim (last_line ls) [ none ↦ none | some l ↦ py.loads l ]

abbrev reason_of : Option Json → Text
reason_of (some (string t)) = take 300 t
reason_of _ = []

abbrev no_verdict : Bool × Text
no_verdict =
    (false, codes "The skill's policy check did not return a verdict, so a person decides.")

-- `verdict.get("allow")` is a `bool`, or there is no verdict
answer_of : Option Json → Option Json → Bool × Text
answer_of (some (bool b)) reason = (b, reason_of reason)
answer_of _ reason = no_verdict

abbrev judged : Option Json → Bool × Text
judged (some (object fields)) =
    answer_of (field_at (codes "allow") fields) (field_at (codes "reason") fields)
judged _ = no_verdict

-- `check_autonomy`, for what its script ends with
unfoldable pub check_autonomy : Python → SkillPackage → ScriptEnd → Bool × Text
unfolding verdict_of answer_of field_at metadata_at
check_autonomy py p end =
    if text_eq (metadata_at (codes "autonomy-check") [] p) []
    then (true, codes "Pre-approved for this skill.")
    else judged (verdict_of py end)
