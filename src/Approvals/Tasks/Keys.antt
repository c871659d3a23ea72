-- ===== src/Approvals/Tasks/Keys.antt =====
-- Each transform keeps the identifiers distinct.
use ess_mcp.Prelude.{
  ℕ, ◌≡◌, refl, ◌&&◌, none, [], ◌∷◌, arith, Bool-cases, Option-cases, inl, inr, Text, lookup,
  IsDict, insert-IsDict,
}
use ess_mcp.Approvals.Json.{Json}
use ess_mcp.Approvals.Call.{Encoding}
use ess_mcp.Approvals.Record.{is_executing}
use ess_mcp.Approvals.Tasks.{
  Tasks, Proposal, Decision, Status, expire_pending, find_same, prune, add_request, new_request,
  propose_tasks, decide_tasks, is_claim, finish_tasks, clear_tasks,
}
use ess_mcp.Approvals.Tasks.Lookups.{propose_tasks_cases}
use ess_mcp.Approvals.Tasks.Prune.{prune-IsDict}

expire_pending-absent :
    (now : ℕ) (id : Text) (ts : Tasks)
    → lookup id ts ≡ none
    → lookup id (expire_pending now ts) ≡ none
unfolding expire_pending lookup
expire_pending-absent now id [] h = refl
expire_pending-absent now id ((k, r) ∷ ts) h = ground (arith, h, expire_pending-absent now id ts)

pub expire_pending-IsDict : (now : ℕ) (ts : Tasks) → IsDict ts → IsDict (expire_pending now ts)
unfolding expire_pending
expire_pending-IsDict now [] h = tt
expire_pending-IsDict now ((k, r) ∷ ts) h =
    (expire_pending-absent now k ts h.0, expire_pending-IsDict now ts h.1)

find_same-absent :
    (e : Encoding) (clock : Text → ℕ) (p : Proposal) (id : Text) (ts : Tasks)
    → lookup id ts ≡ none
    → lookup id (find_same e clock p ts).1 ≡ none
unfolding find_same lookup
find_same-absent e clock p id [] h = refl
find_same-absent e clock p id ((k, r) ∷ ts) h = ground (arith, h, find_same-absent e clock p id ts)

pub find_same-IsDict :
    (e : Encoding) (clock : Text → ℕ) (p : Proposal) (ts : Tasks)
    → IsDict ts
    → IsDict (find_same e clock p ts).1
unfolding find_same
find_same-IsDict e clock p [] h = tt
find_same-IsDict e clock p ((k, r) ∷ ts) h =
    ground (arith, h, find_same-absent e clock p k ts h.0, find_same-IsDict e clock p ts h.1)

clear_tasks-absent :
    (id : Text) (ts : Tasks) → lookup id ts ≡ none → lookup id (clear_tasks ts) ≡ none
unfolding clear_tasks lookup
clear_tasks-absent id [] h = refl
clear_tasks-absent id ((k, r) ∷ ts) h = ground (arith, h, clear_tasks-absent id ts)

pub clear_tasks-IsDict : (ts : Tasks) → IsDict ts → IsDict (clear_tasks ts)
unfolding clear_tasks
clear_tasks-IsDict [] h = tt
clear_tasks-IsDict ((k, r) ∷ ts) h = (clear_tasks-absent k ts h.0, clear_tasks-IsDict ts h.1)

pub add_request-IsDict :
    (printed : Json → Text) (now : ℕ) (p : Proposal) (id : Text) (ts : Tasks)
    → IsDict ts
    → IsDict (add_request printed now p id ts).1
unfolding add_request
add_request-IsDict printed now p id ts h =
    ground (
      arith,
      prune-IsDict ts h,
      insert-IsDict id (new_request now p) (prune ts) (prune-IsDict ts h),
    )

pub propose_tasks-IsDict :
    (e : Encoding) (printed : Json → Text) (now : ℕ) (clock : Text → ℕ) (p : Proposal) (ts : Tasks)
    → IsDict ts
    → IsDict (propose_tasks e printed now clock p ts).1
propose_tasks-IsDict e printed now clock p ts h =
    let live = (find_same e clock p (expire_pending now ts)).1 in
    let good =
      find_same-IsDict e clock p (expire_pending now ts) (expire_pending-IsDict now ts h) in
    propose_tasks_cases e printed now clock p ts IsDict good
      (λ id free room. add_request-IsDict printed now p id live good)

pub decide_tasks-IsDict :
    (e : Encoding) (scrub : Text → Text) (now : ℕ) (d : Decision) (ts : Tasks)
    → IsDict ts
    → IsDict (decide_tasks e scrub now d ts).1
unfolding decide_tasks
decide_tasks-IsDict e scrub now d ts h = elim (Option-cases (lookup d.request_id ts)) [
  | inl absent ↦ rw (absent, decide_tasks) h
  | inr (r, present) ↦ rw (present, decide_tasks) (insert-IsDict d.request_id _ ts h)
]

pub finish_tasks-IsDict :
    (id claim_id : Text) (status : Status) (result : Text) (ts : Tasks)
    → IsDict ts
    → IsDict (finish_tasks id claim_id status result ts).1
unfolding finish_tasks
finish_tasks-IsDict id claim_id status result ts h = elim (Option-cases (lookup id ts)) [
  | inl absent ↦ rw (absent, finish_tasks) h
  | inr (r, present) ↦
      rw (present, finish_tasks)
        (elim (Bool-cases (is_executing r && is_claim r.claim_id claim_id)) [
          | inl own ↦ rw own (insert-IsDict id _ ts h)
          | inr other ↦ rw other h
        ])
]
