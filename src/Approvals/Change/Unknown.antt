-- ===== src/Approvals/Change/Unknown.antt =====
-- A request whose outcome is unknown stays as it is.
use ess_mcp.Prelude.{
  ℕ, ◌≡◌, refl, ◌∙◌, true, false, ◌&&◌, none, some, List, [], ◌∷◌, arith, Text, text_eq,
  text_eq_iff, lookup, lookup-insert, IsDict, Bool-cases, Option-cases, inl, inr,
}
use ess_mcp.Approvals.Record.{Request, unknown, is_pending, is_executing}
use ess_mcp.Approvals.Tasks.{
  Tasks, Proposal, Decision, expire_pending, find_same, free_id, propose_tasks, decide_request,
  decide_tasks, is_claim, finish_tasks,
}
use ess_mcp.Approvals.Tasks.Lookups.{
  is_uncertain, Advances, Advances-trans, expire_pending-Advances, find_same-Advances,
  clear_tasks-Advances, propose_tasks_cases,
}
use ess_mcp.Approvals.Tasks.Keys.{
  expire_pending-IsDict, find_same-IsDict, propose_tasks-IsDict, decide_tasks-IsDict,
  finish_tasks-IsDict, clear_tasks-IsDict,
}
use ess_mcp.Approvals.Gate.{Gate}
use ess_mcp.Approvals.Change.Once.{add_request-Advances, decide_tasks-absent, decide_tasks-present}
use ess_mcp.Approvals.Change.{
  Ending, ending_status, Change, proposed, decided, finished, cleared, apply, apply_all,
}

free_id-absent :
    (cs : List Text) (ts : Tasks) (c : Text) → free_id cs ts ≡ some c → lookup c ts ≡ none
unfolding free_id
free_id-absent [] ts c h = ground arith
free_id-absent (b ∷ cs) ts c h = ground (arith, h, free_id-absent cs ts c)

propose_tasks-kept :
    (g : Gate) (now : ℕ) (clock : Text → ℕ) (p : Proposal) (id : Text) (ts : Tasks)
    → IsDict ts
    → is_uncertain (lookup id ts) ≡ true
    → lookup id (propose_tasks g.encoding g.printed now clock p ts).1 ≡ lookup id ts
propose_tasks-kept g now clock p id ts h u =
    let expired = expire_pending now ts in
    let live = (find_same g.encoding clock p expired).1 in
    let good : Advances (lookup id ts) (lookup id live) =
      Advances-trans _ _ _ (expire_pending-Advances now id ts)
        (find_same-Advances g.encoding clock p id expired) in
    propose_tasks_cases g.encoding g.printed now clock p ts (λ s. lookup id s ≡ lookup id ts)
      (good.kept u)
      (λ c free room.
        let other : text_eq c id ≡ false =
          ground
            (arith, u, good.kept u, free_id-absent p.candidates live c free, text_eq_iff c id) in
        (add_request-Advances g.printed now p c id live
            (find_same-IsDict g.encoding clock p expired (expire_pending-IsDict now ts h))
            other).kept
          (rw (good.kept u) u)
        ∙ good.kept u)

decide_request-unknown :
    (g : Gate) (now : ℕ) (d : Decision) (r : Request)
    → r.status ≡ unknown
    → (decide_request g.encoding g.scrub now d r).2 ≡ r
unfolding decide_request is_pending
decide_request-unknown g now d r u = ground (arith, u)

decided_unknown :
    (g : Gate) (id : Text) (now : ℕ) (d : Decision) (ts : Tasks) (r : Request)
    → lookup id ts ≡ some r
    → r.status ≡ unknown
    → lookup id (decide_tasks g.encoding g.scrub now d ts).1 ≡ some r
decided_unknown g id now d ts r there u = elim (Option-cases (lookup d.request_id ts)) [
  | inl absent ↦ rw ((decide_tasks-absent g.encoding g.scrub now d ts absent).1) there
  | inr (s, present) ↦
      let t = (decide_request g.encoding g.scrub now d s).2 in
      rw
        (
          (decide_tasks-present g.encoding g.scrub now d ts s present).1,
          lookup-insert d.request_id id t ts,
        )
        (ground
          (arith, there, present, text_eq_iff d.request_id id, decide_request-unknown g now d s, u))
]

finished_unknown :
    (id request_id claim_id : Text) (e : Ending) (result : Text) (ts : Tasks) (r : Request)
    → lookup id ts ≡ some r
    → r.status ≡ unknown
    → lookup id (finish_tasks request_id claim_id (ending_status e) result ts).1 ≡ some r
unfolding finish_tasks is_executing
finished_unknown id request_id claim_id e result ts r there u =
    elim (Option-cases (lookup request_id ts)) [
      | inl absent ↦ rw (absent, finish_tasks) there
      | inr (s, present) ↦
          rw (present, finish_tasks)
            (elim (Bool-cases (is_executing s && is_claim s.claim_id claim_id)) [
              | inl own ↦
                  let t = record s { status = ending_status e; result = result } in
                  rw (own, lookup-insert request_id id t ts)
                    (ground (arith, present, own, there, u, text_eq_iff request_id id))
              | inr other ↦ rw other there
            ])
    ]

-- What stands unknown stands as it is after a change.
unknown_step :
    (g : Gate) (id : Text) (x : Change) (ts : Tasks) (r : Request)
    → IsDict ts
    → lookup id ts ≡ some r
    → r.status ≡ unknown
    → (lookup id (apply g x ts) ≡ some r) × IsDict (apply g x ts)
unfolding apply
unknown_step g id (proposed now clock p) ts r h there u = (
  propose_tasks-kept g now clock p id ts h (rw (there, u) refl) ∙ there,
  propose_tasks-IsDict g.encoding g.printed now clock p ts h,
)
unknown_step g id cleared ts r h there u =
    ((clear_tasks-Advances id ts).kept (rw (there, u) refl) ∙ there, clear_tasks-IsDict ts h)
unknown_step g id (decided now d) ts r h there u =
    (decided_unknown g id now d ts r there u, decide_tasks-IsDict g.encoding g.scrub now d ts h)
unknown_step g id (finished request_id claim_id e result) ts r h there u = (
  finished_unknown id request_id claim_id e result ts r there u,
  finish_tasks-IsDict request_id claim_id (ending_status e) result ts h,
)

-- A request whose outcome is unknown is never run, overwritten or evicted: whatever writes of the gate
-- follow, by whatever calls, it is stored as it was.
pub unknown_kept :
    (g : Gate) (id : Text) (xs : List Change) (ts : Tasks) (r : Request)
    → IsDict ts
    → lookup id ts ≡ some r
    → r.status ≡ unknown
    → lookup id (apply_all g xs ts) ≡ some r
unknown_kept g id [] ts r h there u = there
unknown_kept g id (x ∷ xs) ts r h there u =
    let (still, distinct) = unknown_step g id x ts r h there u in
    unknown_kept g id xs (apply g x ts) r distinct still u
