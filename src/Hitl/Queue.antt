-- ===== src/Hitl/Queue.antt =====
-- demo_agent/hitl.py, `HitlCoordinator`. The future of a request is kept in the state, under the
-- request's identifier, which `uuid4` makes and no two requests share; so `queue.remove` compares
-- identifiers.
use ess_mcp.Prelude.{
  ℕ, ◌*◌, Bool, true, false, Option, none, some, List, [], ◌∷◌, ◌++◌, leb, if◌then◌else◌, Text,
  text_eq, Dict, lookup, insert, remove,
}

pub record HumanRequest : Type 0 where
  pub request_id : Text
  pub run_id : Text
  pub manager_aad_id : Text
  pub manager_name : Text
  pub question : Text
  pub asked_at : ℕ
  pub asker_name : Text
  pub asker_aad_id : Text

pub data Future : Type 0 where
  waiting : Future
  answered : Text → Future
  timed_out : Future

abbrev pub is_done : Option Future → Bool
is_done none = false
is_done (some waiting) = false
is_done (some (answered t)) = true
is_done (some timed_out) = true

-- `_pending`, `_by_id`, and the futures
pub record Coordinator : Type 0 where
  pub pending : Dict (List HumanRequest)
  pub by_id : Dict HumanRequest
  pub futures : Dict Future

abbrev pub queue_of : Option (List HumanRequest) → List HumanRequest
queue_of none = []
queue_of (some q) = q

-- `request`, for the request that it makes
unfoldable pub request : HumanRequest → Coordinator → Coordinator
request r s = record {
  pending =
      insert r.manager_aad_id (queue_of (lookup r.manager_aad_id s.pending) ++ (r ∷ [])) s.pending;
  by_id = insert r.request_id r s.by_id;
  futures = insert r.request_id waiting s.futures;
}

-- `if not req.future.done(): req.future.set_…`
unfoldable pub settle : Text → Future → Dict Future → Dict Future
settle id f fs = if is_done (lookup id fs) then fs else insert id f fs

-- `queue.remove`, or the queue as it is
unfoldable pub without : Text → List HumanRequest → List HumanRequest
without id [] = []
without id (r ∷ q) = let rest = without id q in if text_eq r.request_id id then q else r ∷ rest

-- the queue of a manager afterwards; an empty one goes
unfoldable pub set_queue :
    Text → List HumanRequest → Dict (List HumanRequest) → Dict (List HumanRequest)
set_queue m [] d = remove m d
set_queue m (r ∷ q) d = insert m (r ∷ q) d

-- what `_discard` and `resolve_by_request_id` do to the queue
unfoldable pub unqueue : HumanRequest → Dict (List HumanRequest) → Dict (List HumanRequest)
unqueue r d = elim (queue_of (lookup r.manager_aad_id d)) [
  | [] ↦ d
  | q ∷ qs ↦ set_queue r.manager_aad_id (without r.request_id (q ∷ qs)) d
]

-- `_discard`
unfoldable pub discard : HumanRequest → Coordinator → Coordinator
discard r s = record s { pending = unqueue r s.pending; by_id = remove r.request_id s.by_id }

-- `_timeout`
unfoldable pub timeout : Text → Coordinator → Coordinator
timeout id s = elim (lookup id s.by_id) [
  | none ↦ s
  | some r ↦
      if is_done (lookup r.request_id s.futures)
      then s
      else discard r (record s { futures = insert r.request_id timed_out s.futures })
]

-- `resolve`, on the queue of the manager
unfoldable pub resolve_queue :
    Text → Text → List HumanRequest → Coordinator → Option HumanRequest × Coordinator
resolve_queue manager reply [] s = (none, s)
resolve_queue manager reply (r ∷ q) s = (
  some r,
  record {
    pending = set_queue manager q s.pending;
    by_id = remove r.request_id s.by_id;
    futures = settle r.request_id (answered reply) s.futures;
  },
)

-- `resolve`
unfoldable pub resolve : Text → Text → Coordinator → Option HumanRequest × Coordinator
resolve manager reply s = resolve_queue manager reply (queue_of (lookup manager s.pending)) s

-- `resolve_by_request_id`
unfoldable pub resolve_by_request_id : Text → Text → Coordinator → Option HumanRequest × Coordinator
resolve_by_request_id id reply s = elim (lookup id s.by_id) [
  | none ↦ (none, s)
  | some r ↦ (
    some r,
    record {
      pending = unqueue r s.pending;
      by_id = remove id s.by_id;
      futures = settle r.request_id (answered reply) s.futures;
    },
  )
]

-- `get`
unfoldable pub get : Text → Coordinator → Option HumanRequest
get id s = lookup id s.by_id

abbrev is_queue : List HumanRequest → Bool
is_queue [] = false
is_queue (r ∷ q) = true

-- `has_pending`
unfoldable pub has_pending : Text → Coordinator → Bool
has_pending manager s = is_queue (queue_of (lookup manager s.pending))

-- `to_summary`, with the times in seconds
pub record Summary : Type 0 where
  pub request_id : Text
  pub run_id : Text
  pub manager_aad_id : Text
  pub manager_name : Text
  pub asker_name : Text
  pub question : Text
  pub asked_at : ℕ

unfoldable pub to_summary : HumanRequest → Summary
to_summary r = record {
  request_id = r.request_id;
  run_id = r.run_id;
  manager_aad_id = r.manager_aad_id;
  manager_name = r.manager_name;
  asker_name = r.asker_name;
  question = r.question;
  asked_at = r.asked_at * 1000;
}

-- a stable sort by `askedAt`
insert_by_time : Summary → List Summary → List Summary
insert_by_time x [] = x ∷ []
insert_by_time x (y ∷ ys) =
    let rest = insert_by_time x ys in if leb x.asked_at y.asked_at then x ∷ y ∷ ys else y ∷ rest

summaries : List HumanRequest → List Summary → List Summary
summaries [] rest = rest
summaries (r ∷ q) rest = insert_by_time (to_summary r) (summaries q rest)

-- `snapshot`
unfoldable pub snapshot_of : Dict (List HumanRequest) → List Summary
unfolding summaries insert_by_time
snapshot_of [] = []
snapshot_of ((m, q) ∷ d) = summaries q (snapshot_of d)
