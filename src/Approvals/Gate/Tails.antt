-- ===== src/Approvals/Gate/Tails.antt =====
-- The parts of `decide` after its first write: each writes changes of its own only, and runs the tool at
-- most once.
use ess_mcp.Prelude.{
  ◌+◌, ◌≤◌, ◌≡◌, refl, sym, ◌∙◌, Bool, true, false, Option, none, some, List, [], ◌∷◌, ◌++◌, arith,
  Text, Bool-cases, inl, inr, length, Result-cases,
}
use ess_mcp.Memory.Saving.{Saving, saved, unread, refused, lost, store_update}
use ess_mcp.Approvals.Json.{Json}
use ess_mcp.Approvals.Identity.{Identity}
use ess_mcp.Approvals.Record.{Request, unknown_text, completed_text, safe_result, validated_request}
use ess_mcp.Approvals.Tasks.{Tasks, Decision, reason_of}
use ess_mcp.Approvals.Change.{
  Ending, ending_status, as_completed, as_rejected, as_unknown, Change, finished, apply, apply_all,
  claims, Spares, AllSpare,
}
use ess_mcp.Approvals.Gate.{
  Gate, Turn, Ran, Outcome, returns, fails, cancels, Execution, finish, give_up, after_finish,
}
use ess_mcp.Approvals.Gate.Methods.{after_run, complete, execute, after_claim}

pub apply_all-append :
    (g : Gate) (xs ys : List Change) (ts : Tasks)
    → apply_all g (xs ++ ys) ts ≡ apply_all g ys (apply_all g xs ts)
apply_all-append g [] ys ts = refl
apply_all-append g (x ∷ xs) ys ts = apply_all-append g xs ys (apply g x ts)

pub claims-append :
    (g : Gate) (id : Text) (xs ys : List Change) (ts : Tasks)
    → claims g id (xs ++ ys) ts ≡ claims g id xs ts + claims g id ys (apply_all g xs ts)
claims-append g id [] ys ts = omega arith
claims-append g id (x ∷ xs) ys ts = omega (arith, claims-append g id xs ys (apply g x ts))

pub AllSpare-append :
    (id : Text) (xs ys : List Change) → AllSpare id xs → AllSpare id ys → AllSpare id (xs ++ ys)
AllSpare-append id [] ys h k = k
AllSpare-append id (x ∷ xs) ys h k = (h.0, AllSpare-append id xs ys h.1 k)

-- One write of the store, under each ending.
abbrev written : Saving → Change → List Change
written refused x = []
written unread x = []
written saved x = x ∷ []
written lost x = x ∷ []

written-AllSpare :
    (id : Text) (saving : Saving) (x : Change) → Spares id x → AllSpare id (written saving x)
written-AllSpare id saved x h = (h, tt)
written-AllSpare id lost x h = (h, tt)
written-AllSpare id refused x h = tt
written-AllSpare id unread x h = tt

module _ (g : Gate) (id : Text) where
  -- A run after the claim: some changes, and one execution at most.
  pub record IsTail (run : Ran) (ts : Tasks) : Type 0 where
    pub changes : List Change
    pub writes : run.stored ≡ apply_all g changes ts
    pub spares : AllSpare id changes
    pub once : length run.calls ≤ 1

  -- a run that goes on after the changes `xs`
  pub IsTail-after :
      (run : Ran) (xs : List Change) (ts : Tasks)
      → AllSpare id xs
      → IsTail run (apply_all g xs ts)
      → IsTail run ts
  IsTail-after run xs ts h t = record {
    changes = xs ++ t.changes;
    writes = t.writes ∙ sym (apply_all-append g xs t.changes ts);
    spares = AllSpare-append id xs t.changes h t.spares;
    once = t.once;
  }

  finish-written :
      (request_id claim_id : Text) (e : Ending) (result : Text) (saving : Saving) (cancelled : Bool)
      (ts : Tasks)
      → (finish request_id claim_id (ending_status e) result saving cancelled ts).1
        ≡ apply_all g (written saving (finished request_id claim_id e result)) ts
  unfolding finish store_update apply
  finish-written request_id claim_id e result saved cancelled ts = refl
  finish-written request_id claim_id e result lost cancelled ts = refl
  finish-written request_id claim_id e result refused cancelled ts = refl
  finish-written request_id claim_id e result unread cancelled ts = refl

  pub give_up-IsTail :
      (t : Turn) (d : Decision) (claimed cancelled : Bool) (calls : List Execution) (ts : Tasks)
      → length calls ≤ 1
      → IsTail (give_up t d claimed cancelled calls ts) ts
  unfolding give_up
  give_up-IsTail t d true cancelled calls ts h = record {
    changes =
        written t.cleaning
          (finished d.request_id d.claim_id as_unknown (unknown_text d.request_id));
    writes =
        finish-written d.request_id d.claim_id as_unknown (unknown_text d.request_id) t.cleaning
          false ts;
    spares = written-AllSpare id t.cleaning _ tt;
    once = h;
  }
  give_up-IsTail t d false cancelled calls ts h = record {
    changes = [];
    writes = refl;
    spares = tt;
    once = h;
  }

  pub still-IsTail :
      (run : Ran) (ts : Tasks) → run.stored ≡ ts → length run.calls ≤ 1 → IsTail run ts
  still-IsTail run ts e h = record { changes = []; writes = e; spares = tt; once = h }

  module _ (t : Turn) (others_again : List Change) (h : AllSpare id others_again)
      (eq : (ts : Tasks) → t.others_again ts ≡ apply_all g others_again ts) where
    after_finish-IsTail :
        (d : Decision) (message : Text) (calls : List Execution) (answer : Option Bool) (ts : Tasks)
        → length calls ≤ 1
        → IsTail (after_finish t d message calls answer ts) ts
    unfolding after_finish
    after_finish-IsTail d message calls none ts n = IsTail-after _ others_again ts h (
        rw (eq ts)
          (give_up-IsTail t d true t.cancelled_finishing calls (apply_all g others_again ts) n))
    after_finish-IsTail d message calls (some true) ts n = still-IsTail _ ts refl n
    after_finish-IsTail d message calls (some false) ts n = still-IsTail _ ts refl n

    -- `_finish` and what follows it
    finish-IsTail :
        (d : Decision) (e : Ending) (result message : Text) (calls : List Execution) (ts : Tasks)
        → length calls ≤ 1
        → (let (answer, ts') =
              finish d.request_id d.claim_id
                (ending_status e)
                result
                t.finishing
                t.cancelled_finishing
                ts in
            IsTail (after_finish t d message calls answer ts') ts)
    finish-IsTail d e result message calls ts n =
        IsTail-after _ (written t.finishing (finished d.request_id d.claim_id e result)) ts
          (written-AllSpare id t.finishing _ tt)
          (rw
            (← finish-written d.request_id d.claim_id e result t.finishing t.cancelled_finishing ts)
            (after_finish-IsTail d message calls _ _ n))

    after_run-IsTail :
        (d : Decision) (calls : List Execution) (o : Outcome) (ts : Tasks)
        → length calls ≤ 1
        → IsTail (after_run g t d calls o ts) ts
    unfolding after_run complete give_up after_finish
    after_run-IsTail d calls fails ts n = give_up-IsTail t d true false calls ts n
    after_run-IsTail d calls cancels ts n = give_up-IsTail t d true true calls ts n
    after_run-IsTail d calls (returns text) ts n = elim (Bool-cases t.cancelled_run) [
      | inl cancelled ↦ rw (cancelled, after_run) (give_up-IsTail t d true true calls ts n)
      | inr on ↦
          rw (on, after_run)
            (finish-IsTail d as_completed (safe_result g.scrub text)
              (completed_text d.request_id (safe_result g.scrub (safe_result g.scrub text))) calls
              ts n)
    ]

    execute-IsTail :
        (d : Decision) (who : Identity) (r : Request) (args : Json) (ts : Tasks)
        → IsTail (execute g t d who r args ts) ts
    unfolding execute give_up after_run complete after_finish
    execute-IsTail d who r args ts = elim (Bool-cases t.cancelled_ready) [
      | inl cancelled ↦ rw (cancelled, execute) (give_up-IsTail t d true true [] ts (omega arith))
      | inr ready ↦ rw (ready, execute) (after_run-IsTail d _ t.outcome ts (omega arith))
    ]

    pub after_claim-IsTail :
        (d : Decision) (who : Identity) (r : Request) (ts : Tasks)
        → IsTail (after_claim g t d who r ts) ts
    unfolding after_claim
    after_claim-IsTail d who r ts =
        elim (Result-cases (validated_request g.encoding t.later d.scope d.requester r)) [
          | inl (args, good) ↦ rw (good, after_claim) (execute-IsTail d who r args ts)
          | inr (reason, bad) ↦
              rw (bad, after_claim)
                (finish-IsTail d as_rejected (reason_of reason) (reason_of reason) [] ts
                  (omega arith))
        ]
