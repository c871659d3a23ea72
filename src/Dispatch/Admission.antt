-- ===== src/Dispatch/Admission.antt =====
-- demo_agent/web.py, `_call_tool_safe`: what a call has to pass before it is routed, with
-- `_assert_instance_enabled` and `_transformed_args`. The JSON Schema validator, `json.dumps` and
-- `str.lower` are arguments. An entry for the ledger of the governance is a value; the feed of a run's
-- events is left out.
use ess_mcp.Prelude.{
  ℕ, Bool, true, false, not, ◌&&◌, ◌||◌, Option, none, some, List, [], ◌∷◌, leb, if◌then◌else◌,
  Text, codes, text_eq, member, Result, ok, err, ◌>>=◌, ◌>>◌, require,
}
use ess_mcp.Approvals.Json.{Json, object, Fields}
use ess_mcp.Approvals.Call.{Encoding, tool_call_digest}
use ess_mcp.Governance.Switches.{
  EnforcementDecision, blocked, GovernanceState, is_instance_disabled, is_tool_blocked,
}
use ess_mcp.Guardrails.Verdict.{GuardVerdict, denies, escalates, transforms}
use ess_mcp.Skills.Session.{Python}

pub data DispatchError : Type 0 where
  value_error permission_error runtime_error guardrail_blocked : DispatchError

-- An entry for the ledger of the governance.
pub data Note : Type 0 where
  run_blocked : Text → EnforcementDecision → Note
  tool_blocked : Text → Text → EnforcementDecision → Note

-- What a refused call raises, and the entries that it adds to the ledger.
abbrev pub Refused : Type 0
Refused = DispatchError × List Note

abbrev pub refuse : DispatchError → Refused
refuse e = (e, [])

-- `plain` is json.loads(json.dumps(args, allow_nan=False)), `none` where it raises; `dumped` is the
-- length of json.dumps(args); `same` is the equality of two dictionaries.
pub record World : Type 0 where
  pub python : Python
  pub encoding : Encoding
  pub lower : Text → Text
  pub valid : Json → Fields → Bool
  pub plain : Fields → Option Fields
  pub dumped : Fields → ℕ
  pub same : Fields → Fields → Bool
  pub human_schema : Json

-- What does not change while a run is at work.
pub record Context : Type 0 where
  pub scope_known : Bool
  pub has_manager : Bool
  pub identifiers : List Text
  pub allowed_servers : List Text
  pub subagent : Bool
  pub from_chat : Bool

-- What a call finds at a moment: the governance, the directory's cache as pairs of an instance and an
-- application, the discovered schema of its tool, and what `ensure_effect_scope` raises.
pub record Moment : Type 0 where
  pub governance : GovernanceState
  pub instances : List (Text × Text)
  pub schema : Option Json
  pub scope_error : Option Text

-- the loop over the directory's cache, which adds the other name of a known instance
unfoldable pub with_aliases : List (Text × Text) → List Text → List Text
with_aliases [] ids = ids
with_aliases ((instance_id, app_id) ∷ cache) ids =
    with_aliases cache
      (if member app_id ids || member instance_id ids then instance_id ∷ app_id ∷ ids else ids)

-- the first identifier that is disabled; the code's set has no order
unfoldable pub first_disabled : GovernanceState → List Text → Option (Text × EnforcementDecision)
first_disabled g [] = none
first_disabled g (id ∷ ids) =
    let d = is_instance_disabled id g in
    let rest = first_disabled g ids in
    if not (text_eq id []) && blocked d then some (id, d) else rest

-- `_assert_instance_enabled`
unfoldable pub disabled_instance : Context → Moment → Option (Text × EnforcementDecision)
unfolding first_disabled with_aliases
disabled_instance c m = first_disabled m.governance (with_aliases m.instances c.identifiers)

abbrev pub enabled_or_raise : Option (Text × EnforcementDecision) → Result Refused (Unit {0})
enabled_or_raise none = ok tt
enabled_or_raise (some (id, d)) = err (permission_error, run_blocked id d ∷ [])

abbrev pub allowed_or_raise : Text → Text → EnforcementDecision → Result Refused (Unit {0})
allowed_or_raise server tool d =
    if blocked d then err (permission_error, tool_blocked server tool d ∷ []) else ok tt

abbrev pub is_human : Text → Bool
is_human server = text_eq server (codes "human")

abbrev pub is_none {ℓ} : {A : Type ℓ} → Option A → Bool
is_none none = true
is_none (some a) = false

abbrev pub found_or_raise : {A : Type 0} → DispatchError → Option A → Result Refused A
found_or_raise e none = err (refuse e)
found_or_raise e (some a) = ok a

-- the schema of the call, from the discovery or of the human tool
unfoldable pub schema_for : World → Moment → Text → Text → Option Json
schema_for w m server tool =
    if is_human server && text_eq tool (codes "ask_manager") then some w.human_schema else m.schema

-- up to the deny-list: the schema and the copy of the arguments
unfoldable pub admit :
    World → Context → Moment → Text → Text → Fields → Result Refused (Json × Fields)
unfolding schema_for disabled_instance
admit w c m server tool given = do
  args ← found_or_raise value_error (w.plain given)
  require (leb (w.dumped args) 16_000) (refuse value_error)
  schema ← found_or_raise value_error (schema_for w m server tool)
  require (w.valid schema args) (refuse value_error)
  require c.scope_known (refuse permission_error)
  require (is_none m.scope_error) (refuse permission_error)
  enabled_or_raise (disabled_instance c m)
  require (is_human server || member server c.allowed_servers) (refuse permission_error)
  allowed_or_raise server tool (is_tool_blocked w.lower server tool m.governance)
  ok (schema, args)

-- `_transformed_args`, where `changed` is what the policy made of the arguments, if it is an object
unfoldable pub transformed_args : World → Json → Option Fields → Result Refused Fields
transformed_args w schema none = err (refuse guardrail_blocked)
transformed_args w schema (some changed) =
    if w.valid schema changed then ok changed else err (refuse guardrail_blocked)

abbrev pub digest_of : World → Text → Text → Fields → Result Refused Text
digest_of w server tool args = elim (tool_call_digest w.encoding server tool (object args)) [
  | ok d ↦ ok d
  | err e ↦ err (refuse value_error)
]

-- whether an approval names the digest
unfoldable pub approves : Option Text → Text → Bool
approves none d = false
approves (some a) d = text_eq a d

-- an approved action must not be changed
unfoldable pub unless_approved :
    World → Option Text → Text → Text → Fields → Fields → Result Refused (Unit {0})
unless_approved w none server tool args changed = ok tt
unless_approved w (some a) server tool args changed = do
  d ← digest_of w server tool args
  require (not (text_eq a d && not (w.same changed args))) (refuse guardrail_blocked)

-- what a transformation leaves
unfoldable pub rewritten :
    World → Option Text → Json → Option Fields → Text → Text → Fields → Result Refused Fields
unfolding transformed_args unless_approved
rewritten w approved schema changed server tool args = do
  new_args ← transformed_args w schema changed
  unless_approved w approved server tool args new_args
  ok new_args

-- the verdict of the guardrails before the call
unfoldable pub guarded :
    World
    → Context
    → Option Text
    → Json
    → GuardVerdict
    → Option Fields
    → Text
    → Text
    → Fields
    → Result Refused Fields
unfolding rewritten
guarded w c approved schema v changed server tool args = do
  require (not (denies v || (escalates v && (is_human server || c.subagent))))
      (refuse guardrail_blocked)
  if transforms v then rewritten w approved schema changed server tool args else ok args
