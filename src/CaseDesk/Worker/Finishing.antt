-- ===== src/CaseDesk/Worker/Finishing.antt =====
-- demo_agent/case_desk.py, `schedule` and `_drain`: where the workers of a case get to when they are left
-- to themselves.
use ess_mcp.Prelude.{ℕ, suc, ◌+◌, ◌*◌, ◌≤◌, ◌≡◌, Bool, true, false, if◌then◌else◌}
use ess_mcp.CaseDesk.Worker.{
  Desk, Step, admits, notes, starts, takes, ends, turns, closes, breaks_draining, breaks_working,
  leaves, leaves_again, IsServed,
}

-- A step of the workers and of calls that have written already: no new event, nothing breaks off.
unfoldable pub is_own : {d e : Desk} → Step d e → Bool
is_own (admits n) = false
is_own closes = false
is_own (breaks_draining n ready) = false
is_own (breaks_working n busy) = false
is_own (notes n calls busy) = true
is_own (starts n calls free) = true
is_own (takes n p ready some_wait) = true
is_own (ends n ready none_wait) = true
is_own (turns n busy) = true
is_own (leaves n going unmarked) = true
is_own (leaves_again n going is_marked) = true

-- A number of such steps.
pub data Works (d : Desk) : ℕ → Desk → Type 0 where
  begin : Works d 0 d
  next : {n : ℕ} {e f : Desk} → Works d n e → (s : Step e f) → is_own s ≡ true → Works d (suc n) f

-- What is left to do: every step of the workers lowers it.
pub left_to_do : Desk → ℕ
left_to_do d =
    d.unscheduled * 3
    + ((if d.again then 2 else 0)
        + (d.draining * 2 + (d.working * 3 + (d.leaving + d.pending * 2))))

-- Nobody works on the case, no call is about to schedule it, and no event waits.
pub record IsFinished (d : Desk) : Type 0 where
  pub no_event : d.pending ≡ 0
  pub no_call : d.unscheduled ≡ 0
  pub no_worker : d.running ≡ false
  pub no_mark : d.again ≡ false

-- Either nothing is left to do, or a worker or a call goes on.
pub data MayGoOn (d : Desk) : Type 0 where
  finished : IsFinished d → MayGoOn d
  goes_on : {e : Desk} (s : Step d e) → is_own s ≡ true → MayGoOn d

-- What a number of own steps keeps, and how much they have left to do.
record IsOnItsWay (d : Desk) (n : ℕ) (e : Desk) : Type 0 where
  served : IsServed e
  whole : e.broken ≡ false
  less : n + left_to_do e ≤ left_to_do d

-- A run of the workers that leads on from a state until nothing is left to do.
pub record IsFinishedLater (d : Desk) : Type 0 where
  pub steps : ℕ
  pub last : Desk
  pub run : Works d steps last
  pub done : IsFinished last
