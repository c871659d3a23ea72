-- ===== src/Approvals/Gate/Once.antt =====
-- Any number of runs of `decide`, one after the other, each among other calls.
use ess_mcp.Prelude.{
  ℕ, ◌+◌, ◌≤◌, refl, List, [], ◌∷◌, ◌++◌, arith, if◌then◌else◌, Text, text_eq, text_eq_iff, IsDict,
  length,
}
use ess_mcp.Memory.State.{ChatScope}
use ess_mcp.Approvals.Identity.{Actor}
use ess_mcp.Approvals.Tasks.{Tasks}
use ess_mcp.Approvals.Change.{Change, apply_all, claims, AllSpare}
use ess_mcp.Approvals.Change.Once.{request_claims_once}
use ess_mcp.Approvals.Gate.{Gate, Turn, Ran}
use ess_mcp.Approvals.Gate.Methods.{decide}
use ess_mcp.Approvals.Gate.Tails.{claims-append, AllSpare-append}
use ess_mcp.Approvals.Gate.Trace.{requested, decide-IsTraced}

-- One call of `decide`, with what other calls write after its claim, and again before its cleanup.
pub record Visit : Type 0 where
  pub scope : ChatScope
  pub actor : Actor
  pub text : Text
  pub turn : Turn
  pub others : List Change
  pub others_again : List Change

abbrev pub visit_turn : Gate → Visit → Turn
visit_turn g v = record v.turn {
  others = apply_all g v.others;
  others_again = apply_all g v.others_again;
}

unfoldable pub visit : Gate → Visit → Tasks → Ran
visit g v ts = decide g v.scope v.actor v.text (visit_turn g v) ts

-- how often the tool runs for the request `id`
unfoldable pub executions : Gate → Text → List Visit → Tasks → ℕ
executions g id [] ts = 0
executions g id (v ∷ vs) ts =
    (if text_eq (requested v.text) id then length (visit g v ts).calls else 0)
    + executions g id vs (visit g v ts).stored

-- No other call creates a request under `id`.
abbrev pub VisitsSpare : Text → List Visit → Type 0
VisitsSpare id [] = Unit {0}
VisitsSpare id (v ∷ vs) = AllSpare id v.others × AllSpare id v.others_again × VisitsSpare id vs

-- The changes of all runs.
record AreTraced (g : Gate) (id : Text) (vs : List Visit) (ts : Tasks) : Type 0 where
  changes : List Change
  spares : AllSpare id changes
  claimed : executions g id vs ts ≤ claims g id changes ts

executions-AreTraced :
    (g : Gate) (id : Text) (vs : List Visit) (ts : Tasks) → VisitsSpare id vs → AreTraced g id vs ts
unfolding executions visit
executions-AreTraced g id [] ts h = record { changes = []; spares = tt; claimed = omega arith }
executions-AreTraced g id (v ∷ vs) ts (h, h_again, hs) =
    let t =
      decide-IsTraced g (visit_turn g v) v.others v.others_again (λ s. refl) (λ s. refl) v.scope
        v.actor v.text id ts h h_again in
    let rest = executions-AreTraced g id vs (visit g v ts).stored hs in
    record {
      changes = t.changes ++ rest.changes;
      spares = AllSpare-append id t.changes rest.changes t.spares rest.spares;
      claimed =
          rw (claims-append g id t.changes rest.changes ts, ← t.writes)
            (ground (arith, t.claimed, rest.claimed, text_eq_iff (requested v.text) id));
    }

-- However often a person, or several, answer about a request, with whatever texts, however the writes
-- of the store end, whenever callers are cancelled, whether the tool fails, and whatever other calls
-- write in between, as long as none of them creates a request under its identifier anew: the tool runs
-- for this request at most once.
pub executions_once :
    (g : Gate) (id : Text) (vs : List Visit) (ts : Tasks)
    → IsDict ts
    → VisitsSpare id vs
    → executions g id vs ts ≤ 1
executions_once g id vs ts h hs =
    let t = executions-AreTraced g id vs ts hs in
    omega (arith, t.claimed, request_claims_once g id t.changes ts h t.spares)
