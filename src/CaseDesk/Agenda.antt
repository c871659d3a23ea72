-- ===== src/CaseDesk/Agenda.antt =====
-- demo_agent/case_desk.py, `_timer_loop`: the wake-ups of one case, among the writes of its file and of
-- the index, in one process and from the creation of the case on. Calls run on one event loop, so a step is
-- what runs between two awaits.
pub mod Kept
mod Examples
use ess_mcp.Prelude.{
  ℕ, ◌≤◌, ◌≡◌, Bool, true, false, not, Option, none, some, List, [], ◌∷◌, ◌++◌, if◌then◌else◌, Text,
}
use ess_mcp.CaseDesk.Event.{Source, timer, Surroundings, CaseEvent}
use ess_mcp.CaseDesk.File.{Document, CaseFile, is_final, submit_case}
use ess_mcp.CaseDesk.File.Turn.{take_case, no_events}
use ess_mcp.CaseDesk.File.Lifecycle.{wake_is_due}
use ess_mcp.CaseDesk.File.Bounds.{
  Write, submitted, taken, turned, waited, woken, resolved_as, closed_as, wake_cleared, apply,
}
use ess_mcp.CaseDesk.Index.{agenda_entry}

-- What the timer does with an entry that it has popped: it reads the case, clears the wake-up, and
-- submits an event; or an exception has ended it.
pub data Timer : Type 0 where
  rests ended : Timer
  looks clears submits : ℕ × Text → Timer

-- Of one case: its document; the entries under its key in `_agenda`; the cases that a call has written and
-- not yet indexed; the timer, as far as it is busy with this case; and whether a call has raised.
pub record Timed : Type 0 where
  pub document : Document
  pub agenda : List (ℕ × Text)
  pub unindexed : List CaseFile
  pub timer : Timer
  pub failed : Bool

-- whether `_index` follows the write
unfoldable pub is_indexed : Surroundings → Write → Document → Bool
is_indexed w (submitted key fresh colleague now e) d = (submit_case w key fresh colleague now e d).0
is_indexed w taken d = not (no_events (take_case d).0)
is_indexed w (closed_as now state note) d = is_final state
is_indexed w _ d = true

-- the copy of the case that is indexed
abbrev pub copy_of : Option CaseFile → List CaseFile
copy_of none = []
copy_of (some c) = c ∷ []

-- a write, and its copy, if it is indexed
unfoldable pub write_file : Surroundings → Write → Timed → Timed
unfolding is_indexed
write_file w x t =
    let d = apply w x t.document in
    record t {
      document = d;
      unindexed = if is_indexed w x t.document then copy_of d.case ++ t.unindexed else t.unindexed;
    }

-- `heapq.heappush`, as far as one key goes
abbrev pub pushed : Option (ℕ × Text) → List (ℕ × Text) → List (ℕ × Text)
pushed none agenda = agenda
pushed (some entry) agenda = entry ∷ agenda

module _ (w : Surroundings) where
  pub data Step (t : Timed) : Timed → Type 0 where
    -- A write of `submit`, `_take` or `update`.
    writes : (x : Write) → Step t (write_file w x t)
    -- `alias` reads the case, to index it with other names.
    renames : Step t (record t { unindexed = copy_of t.document.case ++ t.unindexed })
    -- The end of `_index`.
    indexes :
        (before later : List CaseFile) (c : CaseFile)
        → t.unindexed ≡ before ++ (c ∷ later)
        → Step t
            (record t { agenda = pushed (agenda_entry c) t.agenda; unindexed = before ++ later })
    -- `_timer_loop` pops an entry that is due.
    pops :
        (before later : List (ℕ × Text)) (entry : ℕ × Text) (now : ℕ)
        → t.agenda ≡ before ++ (entry ∷ later)
        → t.timer ≡ rests
        → entry.0 ≤ now
        → Step t (record t { agenda = before ++ later; timer = looks entry })
    -- The case is not open, or its wake-up is another one.
    drops :
        (entry : ℕ × Text)
        → t.timer ≡ looks entry
        → wake_is_due entry.0 t.document ≡ false
        → Step t (record t { timer = rests })
    -- The wake-up is in force.
    decides :
        (entry : ℕ × Text)
        → t.timer ≡ looks entry
        → wake_is_due entry.0 t.document ≡ true
        → Step t (record t { timer = clears entry })
    -- `update(key, clear)`
    clears_wake :
        (entry : ℕ × Text) (now : ℕ)
        → t.timer ≡ clears entry
        → Step t (record (write_file w (wake_cleared now) t) { timer = submits entry })
    -- `submit` of the event
    fires :
        (entry : ℕ × Text) (key colleague : Text) (now : ℕ) (e : CaseEvent)
        → t.timer ≡ submits entry
        → e.source ≡ timer
        → Step t (record (write_file w (submitted key false colleague now e) t) { timer = rests })
    -- A read or a write of the timer raises, and nothing catches it.
    breaks : Step t (record t { timer = ended; failed = true })
    -- `_index` raises.
    loses :
        (before later : List CaseFile) (c : CaseFile)
        → t.unindexed ≡ before ++ (c ∷ later)
        → Step t (record t { unindexed = before ++ later; failed = true })

  pub data Reaches (t : Timed) : Timed → Type 0 where
    here : Reaches t t
    next : {s u : Timed} → Reaches t s → Step s u → Reaches t u

-- a case that does not exist yet
abbrev pub unborn : Timed
unborn = record {
  document = record { seen = []; case = none; active = false };
  agenda = [];
  unindexed = [];
  timer = rests;
  failed = false;
}
