-- ===== src/Compliance/Workflow/Once.antt =====
-- Any number of notifications, one after the other, each among other calls.
use ess_mcp.Prelude.{
  ◌+◌, ◌≤◌, ◌≡◌, refl, sym, ap, ◌∙◌, Bool, Option, List, [], ◌∷◌, ◌++◌, arith, Text,
}
use ess_mcp.Compliance.Identity.{CaseIdentity}
use ess_mcp.Compliance.Record.{Case, Change, apply_all}
use ess_mcp.Compliance.Record.Once.{wins, is_receive_claim, claims_once}
use ess_mcp.Memory.Saving.{Saving}
use ess_mcp.Compliance.Workflow.{Answer, Call, receive}
use ess_mcp.Compliance.Workflow.Tails.{count_calls, is_create, apply_all-append, wins-append}
use ess_mcp.Compliance.Workflow.Trace.{receive-IsTraced}

-- One delivery of a notification to `receive`, with what happens around it.
pub record Notification : Type 0 where
  pub identity : CaseIdentity
  pub claiming : Saving
  pub others : List Change
  pub answer : Answer (Option Text × Option Text)
  pub receipt : Saving

-- The runs one after the other, each among other calls: what is stored, and all calls.
unfoldable pub receive_all : List Notification → Case → Case × List Call
receive_all [] c = (c, [])
receive_all (n ∷ ns) c =
    let run = receive n.identity n.claiming (apply_all n.others) n.answer n.receipt c in
    let (c', calls) = receive_all ns run.stored in (c', run.calls ++ calls)

count_calls-append :
    (p : Call → Bool) (xs ys : List Call)
    → count_calls p (xs ++ ys) ≡ count_calls p xs + count_calls p ys
count_calls-append p [] ys = omega arith
count_calls-append p (x ∷ xs) ys = omega (arith, count_calls-append p xs ys)

record AreTraced (ns : List Notification) (c : Case) : Type 0 where
  changes : List Change
  writes : (receive_all ns c).0 ≡ apply_all changes c
  claimed : count_calls is_create (receive_all ns c).1 ≤ wins is_receive_claim changes c

receive_all-AreTraced : (ns : List Notification) (c : Case) → AreTraced ns c
unfolding receive_all
receive_all-AreTraced [] c = record { changes = []; writes = refl; claimed = omega arith }
receive_all-AreTraced (n ∷ ns) c =
    let t = receive-IsTraced n.identity n.claiming n.others n.answer n.receipt c in
    let run = receive n.identity n.claiming (apply_all n.others) n.answer n.receipt c in
    let ts = receive_all-AreTraced ns run.stored in
    record {
      changes = t.changes ++ ts.changes;
      writes =
          ts.writes
          ∙ ap (apply_all ts.changes) t.writes
          ∙ sym (apply_all-append t.changes ts.changes c);
      claimed =
          rw (count_calls-append, wins-append, ← t.writes) (omega (arith, t.claimed, ts.claimed));
    }

-- However often a notification, or another one, is delivered, whatever the callback answers, however
-- the writes of the store end and whatever other calls write in between: the case is created in
-- Salesforce at most once.
pub receive_all-once :
    (ns : List Notification) (c : Case) → count_calls is_create (receive_all ns c).1 ≤ 1
receive_all-once ns c =
    let t = receive_all-AreTraced ns c in omega (arith, t.claimed, (claims_once t.changes c).0)
