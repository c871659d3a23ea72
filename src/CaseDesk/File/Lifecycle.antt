-- ===== src/CaseDesk/File/Lifecycle.antt =====
-- demo_agent/case_desk.py: the changes that the colleague's case tools make, `update`, and wake-ups.
use ess_mcp.Prelude.{
  ℕ, ◌+◌, Bool, false, ◌&&◌, Option, none, some, [], ◌++◌, ltb, leb, if◌then◌else◌, Text, codes,
}
use ess_mcp.CaseDesk.Event.{Surroundings, clean}
use ess_mcp.CaseDesk.File.{
  CaseFile, Document, Status, WaitFor, cancelled, closed, confirmation, escalated, is_final,
  is_open, noted, resolved, same_wait, waiting,
}
use ess_mcp.CaseDesk.File.Turn.{is_set}

-- the change of `wait`
unfoldable pub wait : Surroundings → ℕ → WaitFor → Text → Option ℕ → CaseFile → CaseFile
unfolding same_wait
wait w now what reason after c = record c {
  status = waiting;
  waiting_on = some (record {
    waits_for = what;
    reason = clean w reason 300;
    since = now;
    follow_ups = elim c.waiting_on [
      | none ↦ 0
      | some x ↦ if same_wait x.waits_for what then x.follow_ups + 1 else 0
    ];
  });
  next_wake_at = elim after [ none ↦ none | some n ↦ if ltb 0 n then some (now + n) else none ];
  wake_reason = if is_set after then clean w (codes "Follow up: " ++ reason) 300 else [];
}

-- the change of `wake_at`
unfoldable pub wake_at : Surroundings → ℕ → Text → CaseFile → CaseFile
wake_at w at reason c = record c { next_wake_at = some at; wake_reason = clean w reason 300 }

-- the change of `resolve`
unfoldable pub resolve : Surroundings → ℕ → Text → Option ℕ → CaseFile → CaseFile
resolve w now resolution within c = record c {
  status = resolved;
  resolution = clean w resolution 1200;
  waiting_on = some (record {
    waits_for = confirmation;
    reason = codes "Resolved; waiting for the requester to confirm";
    since = now;
    follow_ups = 0;
  });
  next_wake_at = elim within [ none ↦ none | some n ↦ if ltb 0 n then some (now + n) else none ];
  wake_reason = if is_set within then codes "No reply after resolution: close the case" else [];
}

abbrev pub final_text : Status → Text
final_text closed = codes "closed"
final_text escalated = codes "escalated"
final_text cancelled = codes "cancelled"
final_text _ = []

-- the change of `finish`; `none` is its `ValueError`
unfoldable pub close_file : Surroundings → ℕ → Status → Text → CaseFile → Option CaseFile
unfolding noted
close_file w now state note c =
    if is_final state
    then some (record c {
      status = state;
      closed_at = some now;
      waiting_on = none;
      next_wake_at = none;
      wake_reason = [];
      timeline =
          noted
            (record {
              at = now;
              kind = codes "case." ++ final_text state;
              text = clean w note 600;
              who = c.colleague;
            })
            c.timeline;
    })
    else none

-- the transform of `update`; `none` is its `KeyError`
unfoldable pub update_case : ℕ → (CaseFile → CaseFile) → Document → Option Document
unfolding is_open
update_case now change d = elim d.case [
  | none ↦ none
  | some c ↦ some (record d {
    case = some (record (change c) { updated_at = now });
    active = is_open (change c).status;
  })
]

-- one turn of `_timer_loop` for a wake-up due at `due`, at its check of the case: whether it is in force
unfoldable pub wake_is_due : ℕ → Document → Bool
unfolding is_open
wake_is_due due d = elim d.case [
  | none ↦ false
  | some c ↦ is_open c.status && (elim c.next_wake_at [
    | none ↦ false
    | some at ↦ ltb 0 at && leb at (due + 1) && leb due (at + 1)
  ])
]

-- the change `clear` of `_timer_loop`
unfoldable pub clear_wake : CaseFile → CaseFile
clear_wake c = record c { next_wake_at = none }
