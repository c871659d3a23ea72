-- ===== src/Dispatch/Authority.antt =====
-- demo_agent/web.py, `_call_tool_safe`: what stands behind every call that is sent.
use ess_mcp.Prelude.{
  ℕ, zero, suc, ◌≡◌, refl, true, false, ◌&&◌, Option, none, some, List, [], ◌∷◌, arith,
  if◌then◌else◌, Text, Bool-cases, Option-cases, inl, inr,
}
use ess_mcp.Approvals.Json.{Fields}
use ess_mcp.Governance.Switches.{blocked, is_tool_blocked}
use ess_mcp.Skills.Grants.{ToolGrant}
use ess_mcp.Skills.Session.{Python, SkillSession, grant_for, ScriptEnd}
use ess_mcp.Dispatch.Admission.{World, Context, Moment, disabled_instance}
use ess_mcp.Dispatch.Route.{
  RunState, Authority, reads, approved_by_person, delegated, pre_approved, Route, runs, Facts,
  is_dry, needs_person, may_be_granted, grant_in, check_in, delegates, without_grant, with_grant,
  after_grant, route, one_less, spent_in,
}
use ess_mcp.Dispatch.Sending.{Attempt, Sent, accepts, try_once}

-- At the moment of sending the scope was valid, the instance enabled, the tool not denied, and the
-- arguments fitted the schema.
pub record IsClear (w : World) (c : Context) (f : Facts) (m : Moment) : Type 0 where
  pub scope : m.scope_error ≡ none
  pub enabled : disabled_instance c m ≡ none
  pub undenied : blocked (is_tool_blocked w.lower f.server f.tool m.governance) ≡ false
  pub fits : accepts w m.schema f.args ≡ true

abbrev pub AllClear : World → Context → Facts → List Sent → Type 0
AllClear w c f [] = Unit {0}
AllClear w c f (s ∷ sent) =
    IsClear w c f s.moment
    × (s.server ≡ f.server)
    × (s.tool ≡ f.tool)
    × (s.args ≡ f.args)
    × AllClear w c f sent

pub try_once-IsClear :
    (w : World) (c : Context) (f : Facts) (a : Attempt)
    → (try_once w c f a).sent ≡ true
    → IsClear w c f a.moment
unfolding try_once
try_once-IsClear w c f a h = elim (Option-cases a.moment.scope_error) [
  | inr (text, gone) ↦ ground (arith, h, gone)
  | inl scope ↦ elim (Option-cases (disabled_instance c a.moment)) [
    | inr (d, off) ↦ ground (arith, h, scope, off)
    | inl enabled ↦ record {
      scope = scope;
      enabled = enabled;
      undenied = ground (arith, h, scope, enabled);
      fits = ground (arith, h, scope, enabled);
    }
  ]
]

-- By whose authority a call runs, from the state of the run before and after the choice of its route.
-- * It reads, and the guardrails do not ask for a person.
-- * A person has approved this very call.
-- * A grant of the skill matches it, in a session that is no dry run and has actions left; the policy
--   check has allowed it; and the session is charged.
-- * The requester of a chat has delegated it, and one action less is left.
-- In the last two cases it is a write that is not sensitive, and the guardrails do not ask for a person.
abbrev pub HasAuthority :
    World
    → Context
    → Facts
    → ScriptEnd
    → (RunState → RunState)
    → ℕ
    → RunState
    → RunState
    → Authority
    → Type 0
HasAuthority w c f end during now r s reads = (f.readonly ≡ true) × (f.escalate ≡ false)
HasAuthority w c f end during now r s approved_by_person = f.approved ≡ true
HasAuthority w c f end during now r s (pre_approved g) =
    (may_be_granted f ≡ true)
    × (is_dry r.session ≡ false)
    × (grant_in w.python r.session f.server f.tool f.args ≡ some g)
    × (check_in w.python r.session end ≡ true)
    × (s.session ≡ spent_in g f.server f.tool f.args now (during r).session)
HasAuthority w c f end during now r s delegated =
    (may_be_granted f ≡ true)
    × (c.from_chat ≡ true)
    × ((n : ℕ) × (r.delegated_left ≡ some (suc n)) × (s.delegated_left ≡ some n))

delegates-some :
    (c : Context) (f : Facts) (left : Option ℕ)
    → delegates c f left ≡ true
    → (may_be_granted f ≡ true)
      × (c.from_chat ≡ true)
      × ((n : ℕ) × (left ≡ some (suc n)) × (one_less left ≡ some n))
unfolding delegates
delegates-some c f none h = cc
delegates-some c f (some zero) h = cc
delegates-some c f (some (suc n)) h = (ground (arith, h), ground (arith, h), (n, refl, refl))

grant_in-wet :
    (py : Python) (o : Option SkillSession) (server tool : Text) (args : Fields) (g : ToolGrant)
    → grant_in py o server tool args ≡ some g
    → is_dry o ≡ false
unfolding grant_for
grant_in-wet py none server tool args g h = cc
grant_in-wet py (some s) server tool args g h = ground (arith, h)

module _ (w : World) (c : Context) (f : Facts) (end : ScriptEnd) (during : RunState → RunState)
    (now : ℕ) where
  without_grant-HasAuthority :
      (r s : RunState) (who : Authority)
      → without_grant c f false r ≡ runs who s
      → HasAuthority w c f end during now r s who
  unfolding without_grant needs_person
  without_grant-HasAuthority r s reads h = ground (arith, h)
  without_grant-HasAuthority r s approved_by_person h = ground (arith, h)
  without_grant-HasAuthority r s delegated h = elim (Bool-cases (delegates c f r.delegated_left)) [
    | inl granted ↦
        let (may, chat, (n, left, fewer)) = delegates-some c f r.delegated_left granted in
        (may, chat, (n, left, ground (arith, h, granted, fewer)))
    | inr refused ↦ ground (arith, h, refused)
  ]
  without_grant-HasAuthority r s (pre_approved g) h = ground (arith, h)

  declined-HasAuthority :
      (r s q : RunState) (who : Authority)
      → without_grant c f true q ≡ runs who s
      → HasAuthority w c f end during now r s who
  unfolding without_grant needs_person
  declined-HasAuthority r s q reads h = ground (arith, h)
  declined-HasAuthority r s q approved_by_person h = ground (arith, h)
  declined-HasAuthority r s q delegated h = ground (arith, h)
  declined-HasAuthority r s q (pre_approved g) h = ground (arith, h)

  module _ (g : ToolGrant) (r s : RunState) (may : may_be_granted f ≡ true)
      (found : grant_in w.python r.session f.server f.tool f.args ≡ some g) where
    charged-HasAuthority :
        (who : Authority)
        → check_in w.python r.session end ≡ true
        → ◌≡◌ {A = Route}
            (runs (pre_approved g) (record (during r) {
              session = spent_in g f.server f.tool f.args now (during r).session;
            }))
            (runs who s)
        → HasAuthority w c f end during now r s who
    charged-HasAuthority reads allowed e = cc
    charged-HasAuthority approved_by_person allowed e = cc
    charged-HasAuthority delegated allowed e = cc
    charged-HasAuthority (pre_approved g') allowed e = (
      may,
      grant_in-wet w.python r.session f.server f.tool f.args g found,
      ground (arith, found, e),
      allowed,
      ground (arith, e),
    )

    with_grant-HasAuthority :
        (who : Authority)
        → with_grant w c f g end during now r ≡ runs who s
        → HasAuthority w c f end during now r s who
    unfolding with_grant
    with_grant-HasAuthority who h = elim (Bool-cases (check_in w.python r.session end)) [
      | inl allowed ↦ charged-HasAuthority who allowed (ground (arith, h, allowed))
      | inr refused ↦ declined-HasAuthority r s (during r) who (ground (arith, h, refused))
    ]

  after_grant-HasAuthority :
      (o : Option ToolGrant) (r s : RunState) (who : Authority)
      → (if may_be_granted f then grant_in w.python r.session f.server f.tool f.args else none) ≡ o
      → after_grant w c f o end during now r ≡ runs who s
      → HasAuthority w c f end during now r s who
  unfolding after_grant
  after_grant-HasAuthority none r s who e h = without_grant-HasAuthority r s who h
  after_grant-HasAuthority (some g) r s who e h =
      with_grant-HasAuthority g r s (ground (arith, e)) (ground (arith, e)) who h

  -- Whatever is chosen to run has an authority.
  pub route-HasAuthority :
      (r s : RunState) (who : Authority)
      → route w c f end during now r ≡ runs who s
      → HasAuthority w c f end during now r s who
  unfolding route
  route-HasAuthority r s who h = elim (Bool-cases (needs_person f && c.subagent)) [
    | inl refused ↦ ground (arith, h, refused)
    | inr onward ↦ elim (Bool-cases (needs_person f && is_dry r.session)) [
      | inl dry ↦ ground (arith, h, onward, dry)
      | inr wet ↦ after_grant-HasAuthority _ r s who refl (ground (arith, h, onward, wet))
    ]
  ]
