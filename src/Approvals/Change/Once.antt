-- ===== src/Approvals/Change/Once.antt =====
-- A request is claimed for execution at most once.
use ess_mcp.Prelude.{
  ℕ, ◌≤◌, ◌<◌, ◌≡◌, refl, true, false, ◌&&◌, none, some, List, [], ◌∷◌, arith, Text, text_eq,
  text_eq_iff, lookup, insert, lookup-insert, IsDict, member, Bool-cases, Option-cases, inl, inr,
}
use ess_mcp.Approvals.Json.{Json}
use ess_mcp.Approvals.Call.{Encoding}
use ess_mcp.Approvals.Record.{Request, is_pending, is_executing}
use ess_mcp.Approvals.Tasks.{
  Tasks, Proposal, Decision, expire_pending, find_same, free_id, prune, add_request, new_request,
  propose_tasks, decide_request, decide_tasks, is_claim, finish_tasks,
}
use ess_mcp.Approvals.Tasks.Lookups.{
  status_rank, rank, Advances, Advances-trans, expire_pending-Advances, find_same-Advances,
  clear_tasks-Advances, propose_tasks_cases,
}
use ess_mcp.Approvals.Tasks.Prune.{prune-Advances}
use ess_mcp.Approvals.Tasks.Keys.{
  expire_pending-IsDict, find_same-IsDict, propose_tasks-IsDict, decide_tasks-IsDict,
  finish_tasks-IsDict, clear_tasks-IsDict,
}
use ess_mcp.Approvals.Gate.{Gate}
use ess_mcp.Approvals.Change.{
  Ending, ending_status, Change, proposed, decided, finished, cleared, apply, is_claiming, claims,
  Spares, AllSpare,
}

free_id-member :
    (cs : List Text) (ts : Tasks) (c id : Text)
    → free_id cs ts ≡ some c
    → member id cs ≡ false
    → text_eq c id ≡ false
unfolding free_id member
free_id-member [] ts c id h m = ground arith
free_id-member (b ∷ cs) ts c id h m =
    ground
      (arith, h, m, free_id-member cs ts c id, text_eq_iff c id, text_eq_iff b id, text_eq_iff id b)

pub add_request-Advances :
    (printed : Json → Text) (now : ℕ) (p : Proposal) (c id : Text) (ts : Tasks)
    → IsDict ts
    → text_eq c id ≡ false
    → Advances (lookup id ts) (lookup id (add_request printed now p c ts).1)
unfolding add_request
add_request-Advances printed now p c id ts h other =
    let kept = prune-Advances id ts h in
    record {
      onward =
          ground (arith, kept.onward, other, lookup-insert c id (new_request now p) (prune ts));
      kept = ground (arith, kept.kept, other, lookup-insert c id (new_request now p) (prune ts));
    }

propose_tasks-Advances :
    (e : Encoding) (printed : Json → Text) (now : ℕ) (clock : Text → ℕ) (p : Proposal) (id : Text)
    (ts : Tasks)
    → IsDict ts
    → member id p.candidates ≡ false
    → Advances (lookup id ts) (lookup id (propose_tasks e printed now clock p ts).1)
propose_tasks-Advances e printed now clock p id ts h m =
    let expired = expire_pending now ts in
    let live = (find_same e clock p expired).1 in
    let good : Advances (lookup id ts) (lookup id live) =
      Advances-trans _ _ _ (expire_pending-Advances now id ts)
        (find_same-Advances e clock p id expired) in
    propose_tasks_cases e printed now clock p ts (λ s. Advances (lookup id ts) (lookup id s)) good
      (λ c free room. Advances-trans _ _ _ good (
        add_request-Advances printed now p c id live
          (find_same-IsDict e clock p expired (expire_pending-IsDict now ts h))
          (free_id-member p.candidates live c id free m)))

-- A decision moves a request on, from pending to executing where it is a claim.
pub decide_request-onward :
    (e : Encoding) (scrub : Text → Text) (now : ℕ) (d : Decision) (r : Request)
    → (status_rank r.status ≤ status_rank (decide_request e scrub now d r).2.status)
      × ((decide_request e scrub now d r).0 ≡ true
          → (status_rank r.status ≡ 0)
            × (status_rank (decide_request e scrub now d r).2.status ≡ 1))
unfolding decide_request is_pending
decide_request-onward e scrub now d r = ground arith

finish_tasks-onward :
    (id request_id claim_id : Text) (e : Ending) (result : Text) (ts : Tasks)
    → rank (lookup id ts)
      ≤ rank (lookup id (finish_tasks request_id claim_id (ending_status e) result ts).1)
unfolding finish_tasks is_executing
finish_tasks-onward id request_id claim_id e result ts =
    elim (Option-cases (lookup request_id ts)) [
      | inl absent ↦ rw (absent, finish_tasks) (omega arith)
      | inr (r, present) ↦
          rw (present, finish_tasks)
            (elim (Bool-cases (is_executing r && is_claim r.claim_id claim_id)) [
              | inl own ↦
                  let s = record r { status = ending_status e; result = result } in
                  rw (own, lookup-insert request_id id s ts)
                    (ground (arith, present, own, text_eq_iff request_id id))
              | inr other ↦ rw other (omega arith)
            ])
    ]

-- What a change does to the request `id`.
record Moves (g : Gate) (id : Text) (x : Change) (ts : Tasks) : Type 0 where
  onward : rank (lookup id ts) ≤ rank (lookup id (apply g x ts))
  claims :
      is_claiming g id x ts ≡ true
      → (rank (lookup id ts) ≡ 0) × (rank (lookup id (apply g x ts)) ≡ 1)
  distinct : IsDict (apply g x ts)

pub decide_tasks-absent :
    (e : Encoding) (scrub : Text → Text) (now : ℕ) (d : Decision) (ts : Tasks)
    → lookup d.request_id ts ≡ none
    → ((decide_tasks e scrub now d ts).0.0 ≡ false) × ((decide_tasks e scrub now d ts).1 ≡ ts)
unfolding decide_tasks
decide_tasks-absent e scrub now d ts h = rw (h, decide_tasks) (refl, refl)

pub decide_tasks-present :
    (e : Encoding) (scrub : Text → Text) (now : ℕ) (d : Decision) (ts : Tasks) (r : Request)
    → lookup d.request_id ts ≡ some r
    → ((decide_tasks e scrub now d ts).0.0 ≡ (decide_request e scrub now d r).0)
      × ((decide_tasks e scrub now d ts).1
          ≡ insert d.request_id (decide_request e scrub now d r).2 ts)
unfolding decide_tasks
decide_tasks-present e scrub now d ts r h = rw (h, decide_tasks) (refl, refl)

decided-Moves :
    (g : Gate) (id : Text) (now : ℕ) (d : Decision) (ts : Tasks)
    → IsDict ts
    → Moves g id (decided now d) ts
unfolding apply is_claiming
decided-Moves g id now d ts h =
    let same = decide_tasks-IsDict g.encoding g.scrub now d ts h in
    elim (Option-cases (lookup d.request_id ts)) [
      | inl absent ↦
          let as_before = decide_tasks-absent g.encoding g.scrub now d ts absent in
          record {
            onward = rw (as_before.1) (omega arith);
            claims = ground (arith, as_before.0);
            distinct = same;
          }
      | inr (r, present) ↦
          let stored = decide_tasks-present g.encoding g.scrub now d ts r present in
          let step = decide_request-onward g.encoding g.scrub now d r in
          let s = (decide_request g.encoding g.scrub now d r).2 in
          record {
            onward =
                rw (stored.1, lookup-insert d.request_id id s ts)
                  (ground (arith, step, present, text_eq_iff d.request_id id));
            claims =
                rw (stored.1, stored.0, lookup-insert d.request_id id s ts)
                  (ground (arith, step, present, text_eq_iff d.request_id id));
            distinct = same;
          }
    ]

finished-Moves :
    (g : Gate) (id request_id claim_id : Text) (e : Ending) (result : Text) (ts : Tasks)
    → IsDict ts
    → Moves g id (finished request_id claim_id e result) ts
unfolding apply is_claiming
finished-Moves g id request_id claim_id e result ts h = record {
  onward = finish_tasks-onward id request_id claim_id e result ts;
  claims = ground arith;
  distinct = finish_tasks-IsDict request_id claim_id (ending_status e) result ts h;
}

moves : (g : Gate) (id : Text) (x : Change) (ts : Tasks) → IsDict ts → Spares id x → Moves g id x ts
unfolding apply is_claiming
moves g id (proposed now clock p) ts h m = record {
  onward = (propose_tasks-Advances g.encoding g.printed now clock p id ts h m).onward;
  claims = ground arith;
  distinct = propose_tasks-IsDict g.encoding g.printed now clock p ts h;
}
moves g id (decided now d) ts h m = decided-Moves g id now d ts h
moves g id (finished request_id claim_id e result) ts h m =
    finished-Moves g id request_id claim_id e result ts h
moves g id cleared ts h m = record {
  onward = (clear_tasks-Advances id ts).onward;
  claims = ground arith;
  distinct = clear_tasks-IsDict ts h;
}

claims_past :
    (g : Gate) (id : Text) (xs : List Change) (ts : Tasks)
    → IsDict ts
    → AllSpare id xs
    → 0 < rank (lookup id ts)
    → claims g id xs ts ≡ 0
claims_past g id [] ts h m past = refl
claims_past g id (x ∷ xs) ts h m past =
    let step = moves g id x ts h m.0 in
    let rest =
      claims_past g id xs (apply g x ts) step.distinct m.1 (omega (arith, past, step.onward)) in
    elim (Bool-cases (is_claiming g id x ts)) [
      | inl won ↦ absurd (omega (arith, past, (step.claims won).0))
      | inr lost ↦ rw lost (omega (arith, rest))
    ]

-- Over any sequence of writes of the gate, by whatever calls, that do not create a request under the
-- identifier: the request is claimed for execution at most once.
pub request_claims_once :
    (g : Gate) (id : Text) (xs : List Change) (ts : Tasks)
    → IsDict ts
    → AllSpare id xs
    → claims g id xs ts ≤ 1
request_claims_once g id [] ts h m = omega arith
request_claims_once g id (x ∷ xs) ts h m =
    let step = moves g id x ts h m.0 in
    elim (Bool-cases (is_claiming g id x ts)) [
      | inl won ↦ rw won (
          omega (
            arith,
            claims_past g id xs (apply g x ts) step.distinct m.1
                (omega (arith, (step.claims won).1)),
          ))
      | inr lost ↦
          rw lost (omega (arith, request_claims_once g id xs (apply g x ts) step.distinct m.1))
    ]
