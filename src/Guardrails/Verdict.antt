-- ===== src/Guardrails/Verdict.antt =====
-- demo_agent/guardrails.py, `GuardVerdict`, `evaluate_text` and `_record`. What the policy engine answers
-- for a window is a parameter.
use ess_mcp.Prelude.{
  ℕ, suc, ◌+◌, Bool, true, false, not, ◌&&◌, Option, none, some, List, [], ◌∷◌, ◌++◌, ltb,
  if◌then◌else◌, take, last, Text, codes, member,
}
use ess_mcp.Guardrails.Windows.{windows}

pub data Mode : Type 0 where
  enforce evaluate_only off : Mode

pub data Judgement : Type 0 where
  allow warn transform escalate deny : Judgement

-- `transformed` is the text of the transformed value, where it has one.
pub record GuardVerdict : Type 0 where
  pub point : Text
  pub decision : Judgement
  pub reason : Text
  pub mode : Mode
  pub transformed : Option Text
  pub applied : Bool

unfoldable pub enforced : GuardVerdict → Bool
enforced v = elim v.mode [ enforce ↦ true | _ ↦ false ]

unfoldable pub denies : GuardVerdict → Bool
unfolding enforced
denies v = enforced v && (elim v.decision [ deny ↦ true | _ ↦ false ])

unfoldable pub escalates : GuardVerdict → Bool
unfolding enforced
escalates v = enforced v && (elim v.decision [ escalate ↦ true | _ ↦ false ])

unfoldable pub transforms : GuardVerdict → Bool
unfolding enforced
transforms v = enforced v && (elim v.decision [ transform ↦ true | _ ↦ false ]) && v.applied

unfoldable pub severity : Judgement → ℕ
severity allow = 0
severity warn = 1
severity transform = 2
severity escalate = 3
severity deny = 4

-- the text of a window after its verdict
unfoldable pub part_of : GuardVerdict → Text → Text
part_of v s = if transforms v then (elim v.transformed [ some t ↦ t | none ↦ s ]) else s

-- the more severe of two verdicts, the first of equals
unfoldable pub worse : GuardVerdict → GuardVerdict → GuardVerdict
worse v x = if ltb (severity v.decision) (severity x.decision) then x else v

-- The loop of `evaluate_text` from window `index` on, where `v` is the worst so far: `judge` says what the
-- engine answers for a window of that index.
unfoldable pub judge_rest :
    (ℕ → Text → GuardVerdict) → ℕ → GuardVerdict → List Text → GuardVerdict × Text
judge_rest judge index v [] = (v, [])
judge_rest judge index v (s ∷ ss) =
    let x = judge index s in
    let (worst, rest) = judge_rest judge (suc index) (worse v x) ss in (worst, part_of x s ++ rest)

abbrev pub or_one : List Text → Text × List Text
or_one [] = ([], [])
or_one (w ∷ ws) = (w, ws)

-- `_windows(text) or [""]`
unfoldable pub chunks_of : Text → Text × List Text
chunks_of s = or_one (windows s)

-- `evaluate_text`
unfoldable pub evaluate_text : (ℕ → Text → GuardVerdict) → Text → GuardVerdict × Text
evaluate_text judge s =
    let (w, ws) = chunks_of s in
    let x = judge 1 w in let (worst, rest) = judge_rest judge 2 x ws in (worst, part_of x w ++ rest)

abbrev pub max_decisions : ℕ
max_decisions = 500

-- An entry of the log: its revision and its verdict.
pub record Decision : Type 0 where
  pub rev : ℕ
  pub run_id : Text
  pub verdict : GuardVerdict

pub record Log : Type 0 where
  pub revision : ℕ
  pub entries : List Decision

abbrev is_allow : Judgement → Bool
is_allow allow = true
is_allow _ = false

-- `_record`, without the two counters
unfoldable pub record_verdict : Text → GuardVerdict → Log → Log
record_verdict run v l =
    let rev = l.revision + 1 in
    if is_allow v.decision
      && not (member v.point (codes "pre_tool_call" ∷ codes "agent_startup" ∷ []))
    then record l { revision = rev }
    else record {
      revision = rev;
      entries =
          last max_decisions (l.entries ++ (record { rev = rev; run_id = run; verdict = v } ∷ []));
    }

newest_after : ℕ → List Decision → List Decision → List Decision
newest_after after [] found = found
newest_after after (d ∷ ds) found =
    newest_after after ds (if ltb after d.rev then d ∷ found else found)

-- `decisions`
unfoldable pub decisions : ℕ → ℕ → Log → List Decision
unfolding newest_after
decisions after limit l = take limit (newest_after after l.entries [])
