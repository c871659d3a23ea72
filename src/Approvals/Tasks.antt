-- ===== src/Approvals/Tasks.antt =====
-- demo_agent/tool_approvals.py: what the gate writes into `tasks`. Each function here is the
-- transform of one `store.update`.

pub mod Lookups
pub mod Prune
pub mod Bounds
pub mod Keys
use ess_mcp.Prelude.{
  ℕ, zero, suc, ◌+◌, ◌-◌, ◌*◌, ◌≤◌, ◌≡◌, refl, Bool, true, false, not, ◌&&◌, ◌||◌, Option, none,
  some, List, [], ◌∷◌, ◌++◌, map, ltb, leb, ◌==◌, if◌then◌else◌, length, take, any, all, Text,
  codes, text_eq, member, Dict, lookup, insert, remove, Result, ok, err,
}
use ess_mcp.Memory.State.{ChatScope, same_scope}
use ess_mcp.Approvals.Json.{Json, Invalid, unverified, expired}
use ess_mcp.Approvals.Call.{Encoding}
use ess_mcp.Approvals.Identity.{Action, approve, reject}
use ess_mcp.Approvals.Record.{
  Request, Status, pending, executing, completed, rejected, unknown, is_pending, is_executing,
  is_settled, validated_request, approval_message, status_message, not_found_text, invalid_text,
  expired_text, rejected_text, save_failed_text, max_pending, max_records, approval_ttl_seconds,
}

abbrev pub Tasks : Type 0
Tasks = Dict Request

abbrev pub reject_with : Text → Request → Request
reject_with text r = record r { status = rejected; result = text }

-- The first loop of `propose`.
unfoldable pub expire_pending : ℕ → Tasks → Tasks
expire_pending now [] = []
expire_pending now ((id, r) ∷ ts) =
    (id, if is_pending r && leb r.expires_at now then reject_with expired_text r else r)
    ∷ expire_pending now ts

unfoldable pub count_pending : Tasks → ℕ
count_pending [] = 0
count_pending ((id, r) ∷ ts) = (if is_pending r then 1 else 0) + count_pending ts

-- the first candidate that is no key
unfoldable pub free_id : List Text → Tasks → Option Text
free_id [] ts = none
free_id (c ∷ cs) ts =
    let rest = free_id cs ts in elim (lookup c ts) [ none ↦ some c | some _ ↦ rest ]

-- a < b in Python's order of texts
unfoldable pub text_lt : Text → Text → Bool
text_lt [] [] = false
text_lt [] (d ∷ t) = true
text_lt (c ∷ s) [] = false
text_lt (c ∷ s) (d ∷ t) = ltb c d || ((c == d) && text_lt s t)

-- (at, key) < (at', key')
unfoldable pub older : ℕ × Text → ℕ × Text → Bool
older (a, k) (b, j) = ltb a b || ((a == b) && text_lt k j)

unfoldable pub insert_sorted : ℕ × Text → List (ℕ × Text) → List (ℕ × Text)
insert_sorted x [] = x ∷ []
insert_sorted x (y ∷ ys) =
    let rest = insert_sorted x ys in if older y x then y ∷ rest else x ∷ y ∷ ys

-- `sorted(...)` of the completed and the rejected requests
unfoldable pub removable : Tasks → List (ℕ × Text)
removable [] = []
removable ((id, r) ∷ ts) =
    let rest = removable ts in if is_settled r then insert_sorted (r.at, id) rest else rest

unfoldable pub remove_all : List (ℕ × Text) → Tasks → Tasks
remove_all [] ts = ts
remove_all ((at, id) ∷ ids) ts = remove_all ids (remove id ts)

-- Room for one more request: the oldest settled ones go.
unfoldable pub prune : Tasks → Tasks
prune ts = remove_all (take (length ts + 1 - max_records) (removable ts)) ts

-- A proposal, as `propose` has it before its transform runs.
pub record Proposal : Type 0 where
  pub server : Text
  pub tool : Text
  pub args : Json
  pub digest : Text
  pub requester : Text
  pub scope : ChatScope
  pub candidates : List Text

-- the same call of the same requester, still pending
unfoldable pub is_same_call : Proposal → Request → Bool
is_same_call p r = is_pending r && text_eq r.requester_id p.requester && text_eq r.digest p.digest

-- The second loop of `propose`: the request that stands already, if one does; those that cannot be
-- verified any more are rejected on the way. `clock` is the time when a request is checked.
unfoldable pub find_same :
    Encoding → (Text → ℕ) → Proposal → Tasks → Option (Text × Request) × Tasks
find_same e clock p [] = (none, [])
find_same e clock p ((id, r) ∷ ts) =
    let (found, rest) = find_same e clock p ts in
    if is_same_call p r
    then (elim (validated_request e (clock id) p.scope p.requester r) [
      | ok _ ↦ (some (id, r), (id, r) ∷ ts)
      | err _ ↦ (found, (id, reject_with invalid_text r) ∷ rest)
    ])
    else (found, (id, r) ∷ rest)

unfoldable pub too_many_text : Text
too_many_text =
    codes
      "This chat already has 20 pending approvals. Reject one or let it expire before requesting another."

unfoldable pub no_id_text : Text
no_id_text = codes "A unique approval ID could not be allocated. Nothing was run."

unfoldable pub full_text : Text
full_text =
    codes
      "Approval history is full of pending or uncertain actions. Nothing was run; review existing actions first."

unfoldable pub new_request : ℕ → Proposal → Request
new_request now p = record {
  server = p.server;
  tool = p.tool;
  args = p.args;
  digest = p.digest;
  requester_id = p.requester;
  scope = p.scope;
  expires_at = now + approval_ttl_seconds;
  status = pending;
  at = now;
  result = [];
  claim_id = none;
}

-- the end of `propose`: room is made, and the request is added
unfoldable pub add_request : (Json → Text) → ℕ → Proposal → Text → Tasks → Text × Tasks
add_request printed now p id ts =
    let kept = prune ts in
    if leb max_records (length kept)
    then (full_text, kept)
    else (approval_message printed id (new_request now p), insert id (new_request now p) kept)

-- the transform of `propose`, with `response`
unfoldable pub propose_tasks :
    Encoding → (Json → Text) → ℕ → (Text → ℕ) → Proposal → Tasks → Text × Tasks
propose_tasks e printed now clock p ts =
    let (found, live) = find_same e clock p (expire_pending now ts) in
    elim found [
      | some (id, r) ↦ (approval_message printed id r, live)
      | none ↦
          if leb max_pending (count_pending live)
          then (too_many_text, live)
          else (elim (free_id p.candidates live) [
            | none ↦ (no_id_text, live)
            | some id ↦ add_request printed now p id live
          ])
    ]

-- who decides on which request, and the nonce of this decision
pub record Decision : Type 0 where
  pub action : Action
  pub request_id : Text
  pub requester : Text
  pub scope : ChatScope
  pub claim_id : Text

-- `_EXPIRED` if the check said so, else `_INVALID`
unfoldable pub reason_of : Invalid → Text
reason_of expired = expired_text
reason_of _ = invalid_text

-- the transform of `decide` on the request that it names: `claimed`, `response` and the request then
unfoldable pub decide_request :
    Encoding → (Text → Text) → ℕ → Decision → Request → Bool × Text × Request
decide_request e scrub now d r =
    if not (same_scope r.scope d.scope && text_eq r.requester_id d.requester)
    then (false, not_found_text, r)
    else if not (is_pending r)
    then (false, status_message scrub d.request_id r, r)
    else (elim (validated_request e now d.scope d.requester r) [
      | err reason ↦ (false, reason_of reason, reject_with (reason_of reason) r)
      | ok _ ↦ elim d.action [
        | reject ↦ (false, rejected_text, reject_with rejected_text r)
        | approve ↦
            (true, not_found_text, record r { status = executing; claim_id = some d.claim_id })
      ]
    ])

-- the transform of `decide`
unfoldable pub decide_tasks :
    Encoding → (Text → Text) → ℕ → Decision → Tasks → (Bool × Text) × Tasks
decide_tasks e scrub now d ts = elim (lookup d.request_id ts) [
  | none ↦ ((false, not_found_text), ts)
  | some r ↦
      let (claimed, response, s) = decide_request e scrub now d r in
      ((claimed, response), insert d.request_id s ts)
]

abbrev pub is_claim : Option Text → Text → Bool
is_claim none id = false
is_claim (some c) id = text_eq c id

-- the transform of `_finish`, with `finished`
unfoldable pub finish_tasks : Text → Text → Status → Text → Tasks → Bool × Tasks
finish_tasks request_id claim_id status result ts = elim (lookup request_id ts) [
  | none ↦ (false, ts)
  | some r ↦
      if is_executing r && is_claim r.claim_id claim_id
      then (true, insert request_id (record r { status = status; result = result }) ts)
      else (false, ts)
]

-- the transform of `clear`
unfoldable pub clear_tasks : Tasks → Tasks
clear_tasks [] = []
clear_tasks ((id, r) ∷ ts) =
    (id, if is_pending r then reject_with rejected_text r else r) ∷ clear_tasks ts
