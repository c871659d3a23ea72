-- ===== src/Dispatch/Route.antt =====
-- demo_agent/web.py, `_call_tool_safe`: by whose authority an admitted call runs, or what becomes of it
-- otherwise. What other calls of the run do during the policy check is an argument. The run in the
-- ledger of runs is the list of its pending digests, `none` where there is no run.
use ess_mcp.Prelude.{
  ℕ, zero, suc, Bool, true, false, not, ◌&&◌, ◌||◌, Option, none, some, List, [], ◌∷◌, ◌==◌,
  if◌then◌else◌, any, Text, codes, member,
}
use ess_mcp.Compliance.Identity.{fold_case}
use ess_mcp.Approvals.Json.{Fields}
use ess_mcp.Skills.Paths.{split}
use ess_mcp.Skills.Grants.{ToolGrant, is_read_only}
use ess_mcp.Skills.Session.{Python, SkillSession, ScriptEnd, grant_for, spend, check_autonomy}
use ess_mcp.Dispatch.Admission.{DispatchError, permission_error, World, Context, approves}

pub record RunState : Type 0 where
  pub approved : Option Text
  pub session : Option SkillSession
  pub delegated_left : Option ℕ
  pub writes : ℕ
  pub pending : Option (List Text)

-- who stands behind a call that runs
pub data Authority : Type 0 where
  reads approved_by_person delegated : Authority
  pre_approved : ToolGrant → Authority

pub data Route : Type 0 where
  refuses : DispatchError → Route
  dry_run : Route
  proposes : RunState → Route
  runs : Authority → RunState → Route

sensitive_words : List Text
sensitive_words =
    codes "delete"
    ∷ codes "remove"
    ∷ codes "terminate"
    ∷ codes "purge"
    ∷ codes "revoke"
    ∷ codes "cancel"
    ∷ codes "deactivate"
    ∷ codes "disable"
    ∷ codes "wipe"
    ∷ codes "reset"
    ∷ codes "bank"
    ∷ codes "payment"
    ∷ codes "payments"
    ∷ codes "credential"
    ∷ codes "credentials"
    ∷ codes "password"
    ∷ codes "secret"
    ∷ codes "permission"
    ∷ codes "permissions"
    ∷ codes "role"
    ∷ codes "roles"
    ∷ []

-- `$` also matches before a line break at the end
without_break : Text → Text
without_break [] = []
without_break (c ∷ []) = if c == 10 then [] else c ∷ []
without_break (c ∷ d ∷ s) = c ∷ without_break (d ∷ s)

-- `_SENSITIVE_TOOL.search`: a part between underscores is one of the words
unfoldable pub is_sensitive : Text → Bool
unfolding sensitive_words without_break fold_case split
is_sensitive tool =
    any (λ part. member part sensitive_words) (split b'_' (without_break (fold_case tool)))

abbrev pub is_dry : Option SkillSession → Bool
is_dry none = false
is_dry (some s) = s.dry_run

abbrev pub grant_in : Python → Option SkillSession → Text → Text → Fields → Option ToolGrant
grant_in py none server tool args = none
grant_in py (some s) server tool args = grant_for py s server tool args

-- What is known of an admitted call when its route is chosen.
pub record Facts : Type 0 where
  pub server : Text
  pub tool : Text
  pub args : Fields
  pub readonly : Bool
  pub escalate : Bool
  pub approved : Bool

-- `needs_person`
unfoldable pub needs_person : Facts → Bool
needs_person f = (not f.readonly || f.escalate) && not f.approved

-- the conditions that a grant and a delegation share
unfoldable pub may_be_granted : Facts → Bool
may_be_granted f = not f.readonly && not f.approved && not (is_sensitive f.tool) && not f.escalate

abbrev pub spent_in :
    ToolGrant → Text → Text → Fields → ℕ → Option SkillSession → Option SkillSession
spent_in g server tool args now none = none
spent_in g server tool args now (some s) = some (spend g server tool args now s)

unfoldable pub delegates : Context → Facts → Option ℕ → Bool
delegates c f none = false
delegates c f (some zero) = false
delegates c f (some (suc n)) = c.from_chat && may_be_granted f

abbrev pub one_less : Option ℕ → Option ℕ
one_less (some (suc n)) = some n
one_less left = left

-- no grant: a delegation, a person, or nobody is needed
unfoldable pub without_grant : Context → Facts → Bool → RunState → Route
without_grant c f declined r =
    if not declined && delegates c f r.delegated_left
    then runs delegated (record r { delegated_left = one_less r.delegated_left })
    else if needs_person f
    then proposes r
    else runs (if f.approved then approved_by_person else reads) r

unfoldable pub check_in : Python → Option SkillSession → ScriptEnd → Bool
check_in py none end = false
check_in py (some s) end = (check_autonomy py s.skill end).0

-- a grant, after its policy check; `during` is what other calls of the run did meanwhile
unfoldable pub with_grant :
    World → Context → Facts → ToolGrant → ScriptEnd → (RunState → RunState) → ℕ → RunState → Route
with_grant w c f g end during now r =
    let later = during r in
    if check_in w.python r.session end
    then runs (pre_approved g)
        (record later { session = spent_in g f.server f.tool f.args now later.session })
    else without_grant c f true later

unfoldable pub after_grant :
    World
    → Context
    → Facts
    → Option ToolGrant
    → ScriptEnd
    → (RunState → RunState)
    → ℕ
    → RunState
    → Route
after_grant w c f none end during now r = without_grant c f false r
after_grant w c f (some g) end during now r = with_grant w c f g end during now r

-- from `digest` to the branch that is taken
unfoldable pub route :
    World → Context → Facts → ScriptEnd → (RunState → RunState) → ℕ → RunState → Route
route w c f end during now r =
    if needs_person f && c.subagent
    then refuses permission_error
    else if needs_person f && is_dry r.session
    then dry_run
    else after_grant w c f
        (if may_be_granted f then grant_in w.python r.session f.server f.tool f.args else none) end
        during now r

-- the facts, from the digest of the call
unfoldable pub facts_of : Text → Text → Fields → Bool → Option Text → Text → Facts
facts_of server tool args escalate approval digest = record {
  server = server;
  tool = tool;
  args = args;
  readonly = is_read_only tool;
  escalate = escalate;
  approved = approves approval digest;
}
