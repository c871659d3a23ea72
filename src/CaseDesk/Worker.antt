-- ===== src/CaseDesk/Worker.antt =====
-- demo_agent/case_desk.py, `submit`, `schedule` and `_drain`: the workers of one case as a state machine.
-- Calls run on one event loop, so a step is what runs between two awaits.
pub mod Finishing
use ess_mcp.Prelude.{ℕ, suc, ◌+◌, ◌<◌, ◌≡◌, Bool, true, false, not, ◌&&◌, if◌then◌else◌}

-- Of one case: the pending events in its file; the calls of `submit` that have written and not yet called
-- `schedule`; whether its key is in `_running` and in `_again`; the tasks of `_drain` that are about to
-- take events, that run a turn, and that are about to leave; `_closing`; and whether a task has left by an
-- exception or the desk closes.
pub record Desk : Type 0 where
  pub pending : ℕ
  pub unscheduled : ℕ
  pub running : Bool
  pub again : Bool
  pub draining : ℕ
  pub working : ℕ
  pub leaving : ℕ
  pub closing : Bool
  pub broken : Bool

pub data Step (d : Desk) : Desk → Type 0 where
  -- `submit` has written an event, or `resume_pending` has found one: `schedule` is called next.
  admits : (n : ℕ) → Step d (record d { pending = d.pending + n; unscheduled = suc d.unscheduled })
  -- `schedule` while a worker runs
  notes :
      (n : ℕ)
      → d.unscheduled ≡ suc n
      → d.running ≡ true
      → Step d (record d { unscheduled = n; again = true })
  -- `schedule` starts a worker.
  starts :
      (n : ℕ)
      → d.unscheduled ≡ suc n
      → d.running ≡ false
      → Step d (record d { unscheduled = n; running = true; draining = suc d.draining })
  -- `_take` returns events, and the turn begins.
  takes :
      (n p : ℕ)
      → d.draining ≡ suc n
      → d.pending ≡ suc p
      → Step d (record d { draining = n; working = suc d.working; pending = 0 })
  -- `_take` finds no event, and the loop ends.
  ends :
      (n : ℕ)
      → d.draining ≡ suc n
      → d.pending ≡ 0
      → Step d (record d { draining = n; leaving = suc d.leaving })
  -- The turn and its `_finish` are over.
  turns : (n : ℕ) → d.working ≡ suc n → Step d (record d { working = n; draining = suc d.draining })
  -- `close` is called.
  closes : Step d (record d { closing = true; broken = true })
  -- An exception, a cancellation, or `_closing`
  breaks_draining :
      (n : ℕ)
      → d.draining ≡ suc n
      → Step d (record d { draining = n; leaving = suc d.leaving; broken = true })
  breaks_working :
      (n : ℕ)
      → d.working ≡ suc n
      → Step d (record d { working = n; leaving = suc d.leaving; broken = true })
  -- the `finally` of a worker whose key is not in `_again`, or at the close
  leaves :
      (n : ℕ)
      → d.leaving ≡ suc n
      → (d.again && not d.closing) ≡ false
      → Step d (record d { leaving = n; running = false })
  -- the same, with the key in `_again`: the next worker starts at once
  leaves_again :
      (n : ℕ)
      → d.leaving ≡ suc n
      → (d.again && not d.closing) ≡ true
      → Step d (record d { leaving = n; again = false; running = true; draining = suc d.draining })

pub data Reaches (d : Desk) : Desk → Type 0 where
  start : Reaches d d
  later : {e f : Desk} → Reaches d e → Step e f → Reaches d f

-- a case that nobody works on
abbrev pub idle : Desk
idle = record {
  pending = 0;
  unscheduled = 0;
  running = false;
  again = false;
  draining = 0;
  working = 0;
  leaving = 0;
  closing = false;
  broken = false;
}

-- There is one worker if the key is in `_running`, and none if not; the key is in `_again` only while it
-- is in `_running`, unless the desk closes; and unless a worker broke, an event that is pending is awaited: by a worker that will
-- take it, by the mark in `_again`, or by a call that will schedule it.
pub record IsServed (d : Desk) : Type 0 where
  pub serial : d.draining + (d.working + d.leaving) ≡ (if d.running then 1 else 0)
  pub marked : d.closing ≡ false → d.again ≡ true → d.running ≡ true
  pub broken_off : d.closing ≡ true → d.broken ≡ true
  pub awaited :
      d.broken ≡ false
      → 0 < d.pending
      → 0 < d.draining + (d.working + (d.unscheduled + (if d.again then 1 else 0)))
