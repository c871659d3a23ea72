-- ===== src/Approvals/Gate/Authority.antt =====
-- What stands behind an execution of `decide`.
use ess_mcp.Approvals.Gate.Verified.{
  IsVerified, after_claim-calls, decide_request-claims, execution_of,
}
use ess_mcp.Prelude.{
  ◌<◌, ◌≡◌, ap, subst, ◌∙◌, Bool, true, false, ◌&&◌, some, List, ◌∷◌, arith, Text, text_eq_iff,
  lookup, lookup-insert, Bool-cases, Option-cases, inl, inr,
}
use ess_mcp.Memory.State.{ChatScope}
use ess_mcp.Memory.Saving.{Saving, saved, unread, refused, lost, store_update, left_by}
use ess_mcp.Approvals.Identity.{Actor, Identity, Action, approve, actor, parse_command}
use ess_mcp.Approvals.Record.{Request, pending, executing, is_executing, not_found_text}
use ess_mcp.Approvals.Tasks.{Tasks, Decision, is_claim, decide_request, decide_tasks}
use ess_mcp.Approvals.Change.Once.{decide_tasks-absent, decide_tasks-present}
use ess_mcp.Approvals.Gate.{Gate, Turn, Execution, give_up, is_approve, decision_of}
use ess_mcp.Approvals.Gate.Methods.{after_decision, after_write, decide_stored, decide}

-- What stands behind the execution `x`: the approval of a request that was stored pending, by the person
-- who asked for it, in the chat where it was asked, verified at the claim and again after it.
pub record IsAuthorised (g : Gate) (t : Turn) (d : Decision) (who : Identity) (ts : Tasks)
    (x : Execution) : Type 0 where
  pub request : Request
  pub approved : d.action ≡ approve
  pub stored : lookup d.request_id ts ≡ some request
  pub waiting : request.status ≡ pending
  pub verified : IsVerified g.encoding t.now d.scope d.requester request
  pub in_time : t.later < request.expires_at
  pub what : x ≡ execution_of request who

after_decision-calls :
    (g : Gate) (t : Turn) (d : Decision) (who : Identity) (claimed : Bool) (response : Text)
    (ts : Tasks) (x : Execution) (xs : List Execution)
    → (after_decision g t d who claimed response ts).calls ≡ x ∷ xs
    → (claimed ≡ true)
      × ((s : Request) × (lookup d.request_id ts ≡ some s)
          × IsVerified g.encoding t.later d.scope d.requester s
          × (x ≡ execution_of s who))
unfolding after_decision
after_decision-calls g t d who claimed response ts x xs h =
    elim (Option-cases (lookup d.request_id ts)) [
      | inl absent ↦ absurd (ground (arith, h, absent))
      | inr (s, present) ↦
          elim (Bool-cases
            (is_approve d.action && claimed && is_executing s && is_claim s.claim_id d.claim_id)) [
              | inl own ↦
                  let (verified, what) =
                    after_claim-calls g t d who s (t.others ts) x xs
                      (ground (arith, h, present, own)) in
                  (ground (arith, own), (s, present, verified, what))
              | inr other ↦ absurd (ground (arith, h, present, other))
            ]
    ]

claimed-IsAuthorised :
    (g : Gate) (t : Turn) (d : Decision) (who : Identity) (response : Text) (ts : Tasks)
    (x : Execution) (xs : List Execution)
    → (after_decision g t d who
        (decide_tasks g.encoding g.scrub t.now d ts).0.0
        response
        (decide_tasks g.encoding g.scrub t.now d ts).1).calls
      ≡ x ∷ xs
    → IsAuthorised g t d who ts x
claimed-IsAuthorised g t d who response ts x xs h =
    let (won, (s, there, again, what)) = after_decision-calls g t d who _ response _ x xs h in
    elim (Option-cases (lookup d.request_id ts)) [
      | inl absent ↦
          absurd (ground (arith, won, decide_tasks-absent g.encoding g.scrub t.now d ts absent))
      | inr (r, present) ↦
          let stored = decide_tasks-present g.encoding g.scrub t.now d ts r present in
          let (approved, waiting, verified, step) =
            decide_request-claims g.encoding g.scrub t.now d r (ground (arith, won, stored.0)) in
          let same : s ≡ record r { status = executing; claim_id = some d.claim_id } = ground (
            arith,
            there,
            stored.1,
            step,
            text_eq_iff d.request_id d.request_id,
            lookup-insert d.request_id d.request_id (decide_request g.encoding g.scrub t.now d r).2
                ts,
          ) in
          record {
            request = r;
            approved = approved;
            stored = present;
            waiting = waiting;
            verified = verified;
            in_time = ground (arith, again.live, same);
            what = what ∙ ap (λ (q : Request). execution_of q who) same;
          }
    ]

after_write-IsAuthorised :
    (g : Gate) (t : Turn) (d : Decision) (who : Identity) (claiming : Saving) (cancelled : Bool)
    (ts : Tasks) (x : Execution) (xs : List Execution)
    → (after_write g t d who cancelled
        (left_by claiming (false, not_found_text) (decide_tasks g.encoding g.scrub t.now d) ts).0
        (store_update claiming (decide_tasks g.encoding g.scrub t.now d) ts).0
        (store_update claiming (decide_tasks g.encoding g.scrub t.now d) ts).1).calls
      ≡ x ∷ xs
    → IsAuthorised g t d who ts x
unfolding after_write store_update left_by give_up
after_write-IsAuthorised g t d who claiming true ts x xs h = absurd (ground (arith, h))
after_write-IsAuthorised g t d who saved false ts x xs h =
    claimed-IsAuthorised g t d who _ ts x xs h
after_write-IsAuthorised g t d who lost false ts x xs h = absurd (ground (arith, h))
after_write-IsAuthorised g t d who refused false ts x xs h = absurd (ground (arith, h))
after_write-IsAuthorised g t d who unread false ts x xs h = absurd (ground (arith, h))

decide_stored-IsAuthorised :
    (g : Gate) (t : Turn) (d : Decision) (who : Identity) (ts : Tasks) (x : Execution)
    (xs : List Execution)
    → (decide_stored g t d who ts).calls ≡ x ∷ xs
    → IsAuthorised g t d who ts x
unfolding decide_stored
decide_stored-IsAuthorised g t d who ts x xs h =
    after_write-IsAuthorised g t d who t.claiming t.cancelled_claiming ts x xs h

-- If `decide` runs a tool, the text is an exact command, its sender is known and belongs to the
-- configured tenant and users, and an approval of the sender's own pending and verified request stands
-- behind the execution.
pub decide-IsAuthorised :
    (g : Gate) (scope : ChatScope) (a : Actor) (text : Text) (t : Turn) (ts : Tasks) (x : Execution)
    (xs : List Execution)
    → (decide g scope a text t ts).calls ≡ x ∷ xs
    → (id : Text) × (who : Identity) × (parse_command text ≡ some (approve, id))
      × (actor g.authorities scope a ≡ some who)
      × IsAuthorised g t (decision_of scope t approve id who) who ts x
unfolding decide give_up
decide-IsAuthorised g scope a text t ts x xs h = elim (Option-cases (parse_command text)) [
  | inl none_such ↦ absurd (ground (arith, h, none_such))
  | inr ((action, id), c) ↦ elim (Option-cases (actor g.authorities scope a)) [
    | inl denied ↦ absurd (ground (arith, h, c, denied))
    | inr (who, known) ↦ elim (Bool-cases t.cancelled_first) [
      | inl cancelled ↦ absurd (ground (arith, h, c, known, cancelled))
      | inr on ↦
          let d = decision_of scope t action id who in
          let behind =
            decide_stored-IsAuthorised g t d who ts x xs (ground (arith, h, c, known, on)) in
          (
            id,
            who,
            c ∙ ap (λ (b : Action). some (b, id)) behind.approved,
            known,
            subst (λ b. IsAuthorised g t (decision_of scope t b id who) who ts x) behind.approved
                behind,
          )
    ]
  ]
]
