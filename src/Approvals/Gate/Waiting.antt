-- ===== src/Approvals/Gate/Waiting.antt =====
-- `sole_pending`, and `clear`.
use ess_mcp.Prelude.{
  ℕ, ◌≡◌, refl, true, some, List, [], ◌∷◌, arith, if◌then◌else◌, Text, lookup, Bool-cases, inl, inr,
}
use ess_mcp.Memory.State.{ChatScope}
use ess_mcp.Memory.Saving.{Saving, saved, unread, refused, lost, store_update}
use ess_mcp.Approvals.Identity.{Identity, scope_allowed}
use ess_mcp.Approvals.Record.{Request, is_pending, rejected_text}
use ess_mcp.Approvals.Tasks.{Tasks, count_pending, clear_tasks, reject_with}
use ess_mcp.Approvals.Gate.{Gate, returns_none}
use ess_mcp.Approvals.Gate.Methods.{is_waiting, clear}

-- the requests that are waiting, as a person sees them
abbrev pub AllWait : Gate → ChatScope → Text → ℕ → List Text → Tasks → Type 0
AllWait g scope requester now [] ts = Unit {0}
AllWait g scope requester now (id ∷ ids) ts =
    ((r : Request) × (lookup id ts ≡ some r) × (is_waiting g scope requester now id r ≡ true))
    × AllWait g scope requester now ids ts

count-clear_tasks : (ts : Tasks) → count_pending (clear_tasks ts) ≡ 0
unfolding count_pending clear_tasks is_pending
count-clear_tasks [] = refl
count-clear_tasks ((id, r) ∷ ts) = ground (arith, count-clear_tasks ts)

clear_tasks-lookup :
    (ts : Tasks) (id : Text) (r : Request)
    → lookup id ts ≡ some r
    → lookup id (clear_tasks ts) ≡ some (if is_pending r then reject_with rejected_text r else r)
unfolding clear_tasks lookup
clear_tasks-lookup [] id r h = absurd (ground (arith, h))
clear_tasks-lookup ((k, s) ∷ ts) id r h = ground (arith, h, clear_tasks-lookup ts id r)

-- A `clear` that returns is of the configured tenant and leaves no request pending; each one that was
-- pending is rejected, and all others are as they were.
pub clear_settles :
    (g : Gate) (scope : ChatScope) (saving : Saving) (ts : Tasks)
    → (clear g scope saving ts).reply ≡ returns_none
    → (scope_allowed g.authorities scope ≡ true)
      × (count_pending (clear g scope saving ts).stored ≡ 0)
      × ((id : Text) (r : Request)
          → lookup id ts ≡ some r
          → lookup id (clear g scope saving ts).stored
            ≡ some (if is_pending r then reject_with rejected_text r else r))
unfolding clear store_update
clear_settles g scope saved ts h = elim (Bool-cases (scope_allowed g.authorities scope)) [
  | inl good ↦ rw good (refl, count-clear_tasks ts, clear_tasks-lookup ts)
  | inr bad ↦ absurd (ground (arith, h, bad))
]
clear_settles g scope unread ts h = absurd (ground (arith, h))
clear_settles g scope refused ts h = absurd (ground (arith, h))
clear_settles g scope lost ts h = absurd (ground (arith, h))
