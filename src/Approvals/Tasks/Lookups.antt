-- ===== src/Approvals/Tasks/Lookups.antt =====
-- What each transform does to the request under one identifier.
use ess_mcp.Prelude.{
  ℕ, ◌≤◌, ◌<◌, ◌≡◌, refl, ◌∙◌, Bool, true, false, ◌&&◌, Option, none, some, [], ◌∷◌, arith,
  if◌then◌else◌, Bool-cases, Option-cases, inl, inr, leb, Text, text_eq, lookup,
}
use ess_mcp.Approvals.Json.{Json}
use ess_mcp.Approvals.Call.{Encoding}
use ess_mcp.Approvals.Record.{
  Request, Status, pending, executing, completed, rejected, unknown, is_pending, max_pending,
  expired_text,
}
use ess_mcp.Approvals.Tasks.{
  Tasks, Proposal, reject_with, expire_pending, find_same, is_same_call, free_id, add_request,
  count_pending, propose_tasks, clear_tasks,
}

-- How far a request has come; one that is gone has come to its end.
abbrev pub status_rank : Status → ℕ
status_rank pending = 0
status_rank executing = 1
status_rank completed = 2
status_rank rejected = 2
status_rank unknown = 2

abbrev pub rank : Option Request → ℕ
rank none = 2
rank (some r) = status_rank r.status

-- A request that a proposal may not touch: one that runs or whose outcome is unknown.
abbrev pub is_uncertain : Option Request → Bool
is_uncertain none = false
is_uncertain (some r) = elim r.status [ executing ↦ true | unknown ↦ true | _ ↦ false ]

-- `b` is `a` or a later stage of it, and `a` itself if its outcome is uncertain.
pub record Advances (a b : Option Request) : Type 0 where
  pub onward : rank a ≤ rank b
  pub kept : is_uncertain a ≡ true → b ≡ a

pub Advances-refl : (a : Option Request) → Advances a a
Advances-refl a = record { onward = omega arith; kept = λ h. refl }

pub Advances-trans : (a b c : Option Request) → Advances a b → Advances b c → Advances a c
Advances-trans a b c s t = record {
  onward = omega (arith, s.onward, t.onward);
  kept = λ h. t.kept (rw (s.kept h) h) ∙ s.kept h;
}

reject_pending-Advances :
    (r : Request) (b : Bool) (text : Text)
    → Advances (some r) (some (if is_pending r && b then reject_with text r else r))
unfolding is_pending
reject_pending-Advances r b text = record { onward = ground arith; kept = ground arith }

pub expire_pending-Advances :
    (now : ℕ) (id : Text) (ts : Tasks) → Advances (lookup id ts) (lookup id (expire_pending now ts))
unfolding expire_pending lookup
expire_pending-Advances now id [] = Advances-refl none
expire_pending-Advances now id ((k, r) ∷ ts) = elim (Bool-cases (text_eq k id)) [
  | inl here ↦ rw here (reject_pending-Advances r (leb r.expires_at now) expired_text)
  | inr there ↦ rw there (expire_pending-Advances now id ts)
]

pub find_same-Advances :
    (e : Encoding) (clock : Text → ℕ) (p : Proposal) (id : Text) (ts : Tasks)
    → Advances (lookup id ts) (lookup id (find_same e clock p ts).1)
unfolding find_same lookup is_same_call is_pending
find_same-Advances e clock p id [] = Advances-refl none
find_same-Advances e clock p id ((k, r) ∷ ts) =
    let rest = find_same-Advances e clock p id ts in
    elim (Bool-cases (text_eq k id)) [
      | inl here ↦ rw here (record { onward = ground arith; kept = ground arith })
      | inr there ↦
          rw there
            (record { onward = ground (arith, rest.onward); kept = ground (arith, rest.kept) })
    ]

pub clear_tasks-Advances :
    (id : Text) (ts : Tasks) → Advances (lookup id ts) (lookup id (clear_tasks ts))
unfolding clear_tasks lookup is_pending
clear_tasks-Advances id [] = Advances-refl none
clear_tasks-Advances id ((k, r) ∷ ts) =
    let rest = clear_tasks-Advances id ts in
    elim (Bool-cases (text_eq k id)) [
      | inl here ↦ rw here (record { onward = ground arith; kept = ground arith })
      | inr there ↦ rw there rest
    ]

-- What holds of the requests that remain, and after a request is added to them, holds after a
-- proposal.
pub propose_tasks_cases :
    (e : Encoding) (printed : Json → Text) (now : ℕ) (clock : Text → ℕ) (p : Proposal) (ts : Tasks)
    (P : Tasks → Type 0)
    → P (find_same e clock p (expire_pending now ts)).1
    → ((id : Text)
        → free_id p.candidates (find_same e clock p (expire_pending now ts)).1 ≡ some id
        → count_pending (find_same e clock p (expire_pending now ts)).1 < max_pending
        → P (add_request printed now p id (find_same e clock p (expire_pending now ts)).1).1)
    → P (propose_tasks e printed now clock p ts).1
unfolding propose_tasks
propose_tasks_cases e printed now clock p ts P live added =
    let (found, rest) = find_same e clock p (expire_pending now ts) in
    elim (Option-cases found) [
      | inr (same, f) ↦ rw (f, propose_tasks) live
      | inl f ↦
          rw (f, propose_tasks)
            (elim (Bool-cases (leb max_pending (count_pending rest))) [
              | inl full ↦ rw full live
              | inr room ↦ rw room (elim (Option-cases (free_id p.candidates rest)) [
                | inl no_id ↦ rw no_id live
                | inr (id, free) ↦ rw free (added id free (ground (arith, room)))
              ])
            ])
    ]
