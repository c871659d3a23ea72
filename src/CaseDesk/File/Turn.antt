-- ===== src/CaseDesk/File/Turn.antt =====
-- demo_agent/case_desk.py, `_take` and `_finish`: a turn on a case.
use ess_mcp.Prelude.{
  ℕ, ◌+◌, Bool, true, false, not, ◌&&◌, Option, none, some, List, [], ◌∷◌, ◌++◌, ltb, leb,
  if◌then◌else◌, last, Text, codes,
}
use ess_mcp.CaseDesk.Event.{Surroundings, CaseEvent, clean, is_empty, or_text}
use ess_mcp.CaseDesk.File.{
  CaseFile, Document, Status, escalated, is_final, max_errors, new, noted_if, other, resolved,
  waiting, working,
}

unfoldable pub begins_turn : Status → Status
begins_turn new = working
begins_turn waiting = working
begins_turn resolved = working
begins_turn s = s

abbrev pub no_events : List CaseEvent → Bool
no_events [] = true
no_events (e ∷ es) = false

-- the transform of `_take`: the events that the turn works on, and the document
unfoldable pub take_case : Document → List CaseEvent × Document
take_case d = elim d.case [
  | none ↦ ([], d)
  | some c ↦ if no_events c.pending then ([], d) else (
    c.pending,
    record d { case = some (record c { pending = []; status = begins_turn c.status }) },
  )
]

-- what a turn has returned; an empty text where the code has no value
pub record Outcome : Type 0 where
  pub error : Text
  pub summary : Text
  pub run_id : Text
  pub tokens : ℕ

abbrev pub is_set : Option ℕ → Bool
is_set none = false
is_set (some n) = ltb 0 n

-- the first part of the change of `_finish`: what the turn has done
unfoldable pub record_turn : Surroundings → ℕ → Outcome → CaseFile → CaseFile
record_turn w now o c =
    let summary = clean w (or_text o.summary o.error) 600 in
    record c {
      turns = c.turns + 1;
      tokens = c.tokens + o.tokens;
      runs = if is_empty o.run_id then c.runs else last 20 (c.runs ++ (o.run_id ∷ []));
      timeline =
          noted_if summary
            (record {
              at = now;
              kind = if is_empty o.error then codes "colleague.turn" else codes "colleague.error";
              text = summary;
              who = c.colleague;
            })
            c.timeline;
      errors = if is_empty o.error then 0 else c.errors + 1;
    }

-- repeated failures hand the case to a person
unfoldable pub escalate : ℕ → CaseFile → CaseFile
escalate now c = record c {
  status = escalated;
  closed_at = some now;
  waiting_on = none;
  next_wake_at = none;
  wake_reason = [];
  timeline =
      c.timeline
      ++ (record {
        at = now;
        kind = codes "case.escalated";
        text = codes "Stopped after 3 failed turns in a row; needs a person.";
        who = c.colleague;
      }
          ∷ []);
}

abbrev pub is_working : Status → Bool
is_working working = true
is_working _ = false

-- the next step that a turn still owes
unfoldable pub owe_step : ℕ → Outcome → CaseFile → CaseFile
owe_step now o c = record c {
  status = waiting;
  waiting_on = some (elim c.waiting_on [
    | some x ↦ x
    | none ↦ record {
      waits_for = other;
      reason = codes "Next step not yet scheduled";
      since = now;
      follow_ups = 0;
    }
  ]);
  next_wake_at =
      if is_set c.next_wake_at
      then c.next_wake_at
      else some (now + (if is_empty o.error then 3600 else 600));
  wake_reason =
      if is_set c.next_wake_at
      then c.wake_reason
      else if is_empty o.error
      then codes "Check progress"
      else codes "Retry after an error";
}

-- the change of `_finish`
unfoldable pub finish_turn : Surroundings → ℕ → Outcome → CaseFile → CaseFile
finish_turn w now o c =
    let done = record_turn w now o c in
    if leb max_errors done.errors && not (is_final done.status)
    then escalate now done
    else if is_working done.status
    then owe_step now o done
    else done
