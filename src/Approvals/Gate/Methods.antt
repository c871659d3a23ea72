-- ===== src/Approvals/Gate/Methods.antt =====
-- demo_agent/tool_approvals.py: `propose`, `decide`, `sole_pending` and `clear`, each whole.
use ess_mcp.Prelude.{
  ℕ, Bool, true, false, not, ◌&&◌, Option, none, some, List, [], ◌∷◌, ◌++◌, ltb, if◌then◌else◌,
  Text, codes, text_eq, lookup, ok, err,
}
use ess_mcp.Memory.State.{ChatScope, same_scope}
use ess_mcp.Memory.Saving.{Saving, store_update, left_by}
use ess_mcp.Approvals.Identity.{Actor, Identity, scope_allowed, actor, parse_command}
use ess_mcp.Approvals.Json.{Json}
use ess_mcp.Approvals.Call.{validated_call}
use ess_mcp.Approvals.Record.{
  Request, completed, rejected, is_pending, is_executing, denied_text, save_failed_text,
  not_found_text, completed_text, safe_result, has_claim, validated_request,
}
use ess_mcp.Approvals.Tasks.{
  Tasks, Proposal, Decision, reason_of, is_claim, propose_tasks, decide_tasks, clear_tasks,
}
use ess_mcp.Approvals.Gate.{
  Execution, Gate, Outcome, Ran, Turn, after_finish, cancels, decision_of, fails, finish, give_up,
  invalid_text_of, is_approve, is_command, only, raises, ran, returns, returns_none, says,
}

module _ (g : Gate) where
  -- `propose`
  unfoldable pub propose :
      ChatScope → Actor → Text → Text → Json → List Text → Saving → ℕ → (Text → ℕ) → Tasks → Ran
  propose scope a server tool args candidates saving now clock ts =
      elim (actor g.authorities scope a) [
        | none ↦ ran (says denied_text) ts []
        | some who ↦ elim (validated_call g.encoding server tool args) [
          | err reason ↦ ran (says (invalid_text_of reason)) ts []
          | ok call ↦
              let p : Proposal = record {
                server = server;
                tool = tool;
                args = args;
                digest = call.0;
                requester = who.aad_object_id;
                scope = scope;
                candidates = candidates;
              } in
              let (result, ts') =
                store_update saving (propose_tasks g.encoding g.printed now clock p) ts in
              elim result [
                | none ↦ ran (says save_failed_text) ts' []
                | some (response, _) ↦ ran (says response) ts' []
              ]
        ]
      ]

  -- the end of `decide`, after the executor
  unfoldable pub complete : Turn → Decision → Text → List Execution → Tasks → Ran
  complete t d result calls ts =
      let safe = safe_result g.scrub result in
      let (finished, ts') =
        finish d.request_id d.claim_id completed safe t.finishing t.cancelled_finishing ts in
      after_finish t d (completed_text d.request_id (safe_result g.scrub safe)) calls finished ts'

  -- how the executor ends
  unfoldable pub after_run : Turn → Decision → List Execution → Outcome → Tasks → Ran
  after_run t d calls (returns text) ts =
      if t.cancelled_run then give_up t d true true calls ts else complete t d text calls ts
  after_run t d calls fails ts = give_up t d true false calls ts
  after_run t d calls cancels ts = give_up t d true true calls ts

  -- the executor's call for the claimed request `r`
  unfoldable pub execute : Turn → Decision → Identity → Request → Json → Tasks → Ran
  execute t d who r args ts =
      let calls = record { server = r.server; tool = r.tool; args = args; identity = who } ∷ [] in
      if t.cancelled_ready then give_up t d true true [] ts else after_run t d calls t.outcome ts

  -- the second check, of the request that the claim has stored
  unfoldable pub after_claim : Turn → Decision → Identity → Request → Tasks → Ran
  after_claim t d who r ts = elim (validated_request g.encoding t.later d.scope d.requester r) [
    | ok args ↦ execute t d who r args ts
    | err reason ↦
        let message = reason_of reason in
        let (finished, ts') =
          finish d.request_id d.claim_id rejected message t.finishing t.cancelled_finishing ts in
        after_finish t d message [] finished ts'
  ]

  -- `decide` after the write returned: whether it claimed, its response, and what is stored
  unfoldable pub after_decision : Turn → Decision → Identity → Bool → Text → Tasks → Ran
  after_decision t d who claimed response ts = elim (lookup d.request_id ts) [
    | none ↦ ran (says response) ts []
    | some r ↦
        if is_approve d.action && claimed && is_executing r && is_claim r.claim_id d.claim_id
        then after_claim t d who r (t.others ts)
        else ran (says response) ts []
  ]

  -- `decide` after its first write: under cancellation or not, what the transform has left in `claimed`,
  -- what the write returned, and what is stored
  unfoldable pub after_write :
      Turn → Decision → Identity → Bool → Bool → Option ((Bool × Text) × Tasks) → Tasks → Ran
  after_write t d who true claimed result ts = give_up t d claimed true [] (t.others ts)
  after_write t d who false claimed none ts = give_up t d claimed false [] (t.others ts)
  after_write t d who false claimed (some ((_, response), ts')) ts =
      after_decision t d who claimed response ts'

  -- the first write of `decide`
  unfoldable pub decide_stored : Turn → Decision → Identity → Tasks → Ran
  decide_stored t d who ts =
      let transform = decide_tasks g.encoding g.scrub t.now d in
      let (result, ts') = store_update t.claiming transform ts in
      after_write t d who t.cancelled_claiming
        (left_by t.claiming (false, not_found_text) transform ts).0 result ts'

  -- `decide`
  unfoldable pub decide : ChatScope → Actor → Text → Turn → Tasks → Ran
  decide scope a text t ts = elim (parse_command text) [
    | none ↦ ran returns_none ts []
    | some (action, id) ↦ elim (actor g.authorities scope a) [
      | none ↦ ran (says denied_text) ts []
      | some who ↦
          let d = decision_of scope t action id who in
          if t.cancelled_first then give_up t d false true [] ts else decide_stored t d who ts
    ]
  ]

  -- the test of `sole_pending` on one request, at time `now`
  unfoldable pub is_waiting : ChatScope → Text → ℕ → Text → Request → Bool
  is_waiting scope requester now id r =
      is_pending r
      && not (has_claim r.claim_id)
      && text_eq r.requester_id requester
      && same_scope r.scope scope
      && ltb now r.expires_at
      && is_command (parse_command (codes "approve " ++ id))

  unfoldable pub waiting : ChatScope → Text → ℕ → Tasks → List Text
  waiting scope requester now [] = []
  waiting scope requester now ((id, r) ∷ ts) =
      let rest = waiting scope requester now ts in
      if is_waiting scope requester now id r then id ∷ rest else rest

  -- `sole_pending` on what it has read
  unfoldable pub sole_pending : ChatScope → Actor → ℕ → Tasks → Option Text
  sole_pending scope a now ts = elim (actor g.authorities scope a) [
    | none ↦ none
    | some who ↦ only (waiting scope who.aad_object_id now ts)
  ]

  -- `clear`
  unfoldable pub clear : ChatScope → Saving → Tasks → Ran
  clear scope saving ts =
      if not (scope_allowed g.authorities scope)
      then ran raises ts []
      else (let (result, ts') = store_update saving (λ s. (tt, clear_tasks s)) ts in
          elim result [ none ↦ ran raises ts' [] | some _ ↦ ran returns_none ts' [] ])
