-- ===== src/Approvals/Change.antt =====
-- The writes of the gate as changes of the stored requests, in any order and of any calls.
pub mod Once
pub mod Unknown
use ess_mcp.Prelude.{
  ℕ, suc, ◌+◌, ◌≤◌, ◌<◌, ◌≡◌, refl, Bool, true, false, not, ◌&&◌, Option, none, some, List, [], ◌∷◌,
  ◌++◌, arith, if◌then◌else◌, Text, text_eq, lookup, length, any, member,
}
use ess_mcp.Approvals.Identity.{Action, approve, reject}
use ess_mcp.Approvals.Record.{Request, Status, completed, rejected, unknown}
use ess_mcp.Approvals.Tasks.{
  Tasks, Proposal, Decision, propose_tasks, decide_tasks, finish_tasks, clear_tasks,
}
use ess_mcp.Approvals.Gate.{Gate}

-- The result of `_finish` is one of three.
pub data Ending : Type 0 where
  as_completed as_rejected as_unknown : Ending

abbrev pub ending_status : Ending → Status
ending_status as_completed = completed
ending_status as_rejected = rejected
ending_status as_unknown = unknown

pub data Change : Type 0 where
  proposed : ℕ → (Text → ℕ) → Proposal → Change
  decided : ℕ → Decision → Change
  finished : Text → Text → Ending → Text → Change
  cleared : Change

module _ (g : Gate) where
  -- what is stored after a change, and whether it is a claim of the request `id`
  unfoldable pub apply : Change → Tasks → Tasks
  apply (proposed now clock p) ts = (propose_tasks g.encoding g.printed now clock p ts).1
  apply (decided now d) ts = (decide_tasks g.encoding g.scrub now d ts).1
  apply (finished id claim_id e result) ts =
      (finish_tasks id claim_id (ending_status e) result ts).1
  apply cleared ts = clear_tasks ts

  unfoldable pub is_claiming : Text → Change → Tasks → Bool
  is_claiming id (decided now d) ts =
      text_eq d.request_id id && (decide_tasks g.encoding g.scrub now d ts).0.0
  is_claiming id _ ts = false

  abbrev pub apply_all : List Change → Tasks → Tasks
  apply_all [] ts = ts
  apply_all (x ∷ xs) ts = apply_all xs (apply x ts)

  -- how often the request `id` is claimed
  abbrev pub claims : Text → List Change → Tasks → ℕ
  claims id [] ts = 0
  claims id (x ∷ xs) ts = (if is_claiming id x ts then 1 else 0) + claims id xs (apply x ts)

-- The change does not create a request under `id`.
abbrev pub Spares : Text → Change → Type 0
Spares id (proposed now clock p) = member id p.candidates ≡ false
Spares id _ = Unit {0}

abbrev pub AllSpare : Text → List Change → Type 0
AllSpare id [] = Unit {0}
AllSpare id (x ∷ xs) = Spares id x × AllSpare id xs
