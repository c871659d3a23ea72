-- ===== src/Dispatch/Once.antt =====
-- demo_agent/web.py, `_call_tool_safe`: how often a call is sent, and what becomes of its approval.
use ess_mcp.Prelude.{
  ℕ, ◌≤◌, ◌≡◌, refl, ap, sym, subst, ◌∙◌, Bool, true, false, none, [], arith, length, Text,
  Result-cases, Bool-cases, inl, inr, ◌⊎◌,
}
use ess_mcp.Approvals.Json.{Fields}
use ess_mcp.Skills.Grants.{is_read_only}
use ess_mcp.Dispatch.Admission.{World, Context, Moment}
use ess_mcp.Dispatch.Route.{RunState, Route, refuses, dry_run, proposes, runs, Facts, facts_of}
use ess_mcp.Dispatch.Sending.{Delivery, Outcome, Awaits, consume, concluded, follow, call_tool_safe}
use ess_mcp.Dispatch.Backed.{known, call_tool_safe-Follows, follow-sent, length-attempts, rounds_of}

-- Other calls of the run do not touch the approval, which belongs to one task.
abbrev pub KeepsApproval : Awaits → Type 0
KeepsApproval x = (s : RunState) → (x.meanwhile s).approved ≡ s.approved

consume-approved : (f : Facts) (r : RunState) → f.readonly ≡ false → (consume f r).approved ≡ none
unfolding consume
consume-approved f r h = rw h refl

concluded-approved :
    (f : Facts) (guard_result : Text → Text) (d : Delivery) (r later : RunState)
    → r.approved ≡ none
    → later.approved ≡ none
    → (concluded f guard_result d r later).state.approved ≡ none
unfolding concluded
concluded-approved f guard_result d r later h k = elim (Result-cases d.reply) [
  | inl (text, fine) ↦ rw fine (ground (arith, k))
  | inr (e, failed) ↦ rw failed h
]

-- A route that sends a write has used the approval up.
follow-consumes :
    (w : World) (c : Context) (f : Facts) (x : Awaits) (digest : Text) (r : RunState) (o : Route)
    → KeepsApproval x
    → f.readonly ≡ false
    → ((follow w c f x digest r o).sent ≡ []) ⊎ ((follow w c f x digest r o).state.approved ≡ none)
unfolding follow
follow-consumes w c f x digest r (refuses e) keeps h = inl refl
follow-consumes w c f x digest r dry_run keeps h = inl refl
follow-consumes w c f x digest r (proposes s) keeps h = inl (ground arith)
follow-consumes w c f x digest r (runs who s) keeps h = inr (
    concluded-approved f x.guard_result _ (consume f s) (x.meanwhile (consume f s))
      (consume-approved f s h) (keeps (consume f s) ∙ consume-approved f s h))

-- At most three calls are sent, and at most one by a tool that may write; that one uses the approval up.
abbrev pub IsOnce : Bool → Outcome → Type 0
IsOnce readonly o =
    (length o.sent ≤ rounds_of readonly)
    × ((readonly ≡ true) ⊎ (o.sent ≡ []) ⊎ (o.state.approved ≡ none))

nothing-IsOnce : (readonly : Bool) (o : Outcome) → o.sent ≡ [] → IsOnce readonly o
nothing-IsOnce readonly o h = (omega (arith, ap length h), inr (inl h))

follow-IsOnce :
    (w : World) (c : Context) (f : Facts) (x : Awaits) (digest : Text) (r : RunState) (o : Route)
    → KeepsApproval x
    → IsOnce f.readonly (follow w c f x digest r o)
follow-IsOnce w c f x digest r o keeps = elim (follow-sent w c f x digest r o) [
  | inl nothing ↦ nothing-IsOnce f.readonly (follow w c f x digest r o) nothing
  | inr (who, s, chosen, same) ↦ (
    rw same (length-attempts w c f x.attempt (rounds_of f.readonly) 0),
    elim (Bool-cases f.readonly) [
      | inl reads ↦ inl reads
      | inr may_write ↦ inr (follow-consumes w c f x digest r o keeps may_write)
    ],
  )
]

-- A tool that may write is called at most once, whatever fails, and a tool that reads at most three
-- times. When a call that may write was sent, the approval of the run is used up, so that it allows no
-- second one.
pub call_tool_safe-IsOnce :
    (w : World) (c : Context) (m : Moment) (x : Awaits) (server tool : Text) (given : Fields)
    (now : ℕ) (r : RunState)
    → KeepsApproval x
    → IsOnce (is_read_only tool) (call_tool_safe w c m x server tool given now r)
unfolding facts_of
call_tool_safe-IsOnce w c m x server tool given now r keeps =
    elim (call_tool_safe-Follows w c m x server tool given now r) [
      | inl nothing ↦
          nothing-IsOnce (is_read_only tool) (call_tool_safe w c m x server tool given now r)
            nothing
      | inr t ↦ subst (IsOnce (is_read_only tool)) (sym t.routed) (
          follow-IsOnce w c (known w c m x server tool given now r t.args t.digest) x t.digest r _
            keeps)
    ]
