-- ===== src/Hitl/Settled.antt =====
-- A future is settled once.
use ess_mcp.Prelude.{
  ◌≡◌, refl, ◌∙◌, true, false, List, [], ◌∷◌, arith, Text, text_eq, text_eq_iff, Dict, lookup,
  lookup-insert, Option-cases, inl, inr,
}
use ess_mcp.Hitl.Queue.{
  HumanRequest, Future, waiting, answered, timed_out, is_done, Coordinator, queue_of, request,
  settle, discard, timeout, resolve, resolve_queue, resolve_by_request_id,
}

-- The calls of the coordinator.
pub data Action : Type 0 where
  asks : HumanRequest → Action
  times_out : Text → Action
  replies : Text → Text → Action
  replies_to : Text → Text → Action

unfoldable pub act : Action → Coordinator → Coordinator
act (asks r) s = request r s
act (times_out id) s = timeout id s
act (replies manager reply) s = (resolve manager reply s).1
act (replies_to id reply) s = (resolve_by_request_id id reply s).1

abbrev pub act_all : List Action → Coordinator → Coordinator
act_all [] s = s
act_all (x ∷ xs) s = act_all xs (act x s)

-- The identifier is not given to another request.
abbrev pub Spares : Text → Action → Type 0
Spares id (asks r) = text_eq r.request_id id ≡ false
Spares id _ = Unit {0}

abbrev pub AllSpare : Text → List Action → Type 0
AllSpare id [] = Unit {0}
AllSpare id (x ∷ xs) = Spares id x × AllSpare id xs

settle-keeps :
    (id k : Text) (f : Future) (fs : Dict Future)
    → is_done (lookup id fs) ≡ true
    → lookup id (settle k f fs) ≡ lookup id fs
unfolding settle
settle-keeps id k f fs h = ground (arith, h, lookup-insert k id f fs, text_eq_iff k id)

timeout-keeps :
    (id k : Text) (s : Coordinator)
    → is_done (lookup id s.futures) ≡ true
    → lookup id (timeout k s).futures ≡ lookup id s.futures
unfolding timeout discard
timeout-keeps id k s h = elim (Option-cases (lookup k s.by_id)) [
  | inl absent ↦ rw (absent, timeout) refl
  | inr (r, present) ↦ ground (
    arith,
    h,
    present,
    lookup-insert r.request_id id timed_out s.futures,
    text_eq_iff r.request_id id,
  )
]

resolve_queue-keeps :
    (id manager reply : Text) (q : List HumanRequest) (s : Coordinator)
    → is_done (lookup id s.futures) ≡ true
    → lookup id (resolve_queue manager reply q s).1.futures ≡ lookup id s.futures
unfolding resolve_queue
resolve_queue-keeps id manager reply [] s h = refl
resolve_queue-keeps id manager reply (r ∷ q) s h =
    settle-keeps id r.request_id (answered reply) s.futures h

act-keeps :
    (id : Text) (x : Action) (s : Coordinator)
    → Spares id x
    → is_done (lookup id s.futures) ≡ true
    → lookup id (act x s).futures ≡ lookup id s.futures
unfolding act request resolve resolve_by_request_id
act-keeps id (asks r) s m h = ground (arith, m, lookup-insert r.request_id id waiting s.futures)
act-keeps id (times_out k) s m h = timeout-keeps id k s h
act-keeps id (replies manager reply) s m h =
    resolve_queue-keeps id manager reply (queue_of (lookup manager s.pending)) s h
act-keeps id (replies_to k reply) s m h = elim (Option-cases (lookup k s.by_id)) [
  | inl absent ↦ ground (arith, absent)
  | inr (r, present) ↦
      ground (arith, present, settle-keeps id r.request_id (answered reply) s.futures h)
]

-- Once a run has its answer or its timeout, no later reply, timeout or question changes it.
pub settled_stays :
    (id : Text) (xs : List Action) (s : Coordinator)
    → AllSpare id xs
    → is_done (lookup id s.futures) ≡ true
    → lookup id (act_all xs s).futures ≡ lookup id s.futures
settled_stays id [] s m h = refl
settled_stays id (x ∷ xs) s m h =
    let step = act-keeps id x s m.0 h in settled_stays id xs (act x s) m.1 (rw step h) ∙ step
