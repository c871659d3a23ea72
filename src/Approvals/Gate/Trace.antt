-- ===== src/Approvals/Gate/Trace.antt =====
-- `decide` writes changes of its own only, and runs the tool no more often than these claim the request.
use ess_mcp.Prelude.{
  ◌≤◌, ◌≡◌, refl, sym, ap, ◌∙◌, Bool, true, false, ◌&&◌, none, some, List, [], ◌∷◌, ◌++◌, arith,
  if◌then◌else◌, Text, text_eq_iff, lookup, Bool-cases, Option-cases, inl, inr, length,
}
use ess_mcp.Memory.State.{ChatScope}
use ess_mcp.Memory.Saving.{Saving, saved, unread, refused, lost, store_update, left_by}
use ess_mcp.Approvals.Identity.{Actor, Identity, actor, parse_command}
use ess_mcp.Approvals.Record.{is_executing, not_found_text}
use ess_mcp.Approvals.Tasks.{Tasks, Decision, is_claim, decide_tasks}
use ess_mcp.Approvals.Change.{Change, decided, apply, is_claiming, apply_all, claims, AllSpare}
use ess_mcp.Approvals.Gate.{Gate, Turn, Ran, give_up, is_approve, says, ran}
use ess_mcp.Approvals.Gate.Methods.{after_decision, after_write, decide_stored, decide}
use ess_mcp.Approvals.Gate.Tails.{
  IsTail, apply_all-append, AllSpare-append, IsTail-after, give_up-IsTail, after_claim-IsTail,
}

-- The run's writes, those of other calls during it included, are `changes`, which create no request
-- under `id`; the tool runs no more often than they claim `request_id`.
pub record IsTraced (g : Gate) (id request_id : Text) (run : Ran) (ts : Tasks) : Type 0 where
  pub changes : List Change
  pub writes : run.stored ≡ apply_all g changes ts
  pub spares : AllSpare id changes
  pub claimed : length run.calls ≤ claims g request_id changes ts

-- the request that a command names
abbrev pub requested : Text → Text
requested text = elim (parse_command text) [ none ↦ [] | some (action, id) ↦ id ]

module _ (g : Gate) (t : Turn) (others others_again : List Change)
    (eq : (ts : Tasks) → t.others ts ≡ apply_all g others ts)
    (eq_again : (ts : Tasks) → t.others_again ts ≡ apply_all g others_again ts) where
  module _ (id : Text) (d : Decision) (who : Identity) (h : AllSpare id others)
      (h_again : AllSpare id others_again) where
    -- a run without execution
    silent-IsTraced :
        (run : Ran) (ts : Tasks)
        → IsTail g id run ts
        → run.calls ≡ []
        → IsTraced g id d.request_id run ts
    silent-IsTraced run ts tail e = record {
      changes = tail.changes;
      writes = tail.writes;
      spares = tail.spares;
      claimed = rw e (omega arith);
    }

    after_decision-IsTraced :
        (claimed : Bool) (response : Text) (ts ts' : Tasks)
        → apply g (decided t.now d) ts ≡ ts'
        → is_claiming g d.request_id (decided t.now d) ts ≡ claimed
        → IsTraced g id d.request_id (after_decision g t d who claimed response ts') ts
    unfolding after_decision
    after_decision-IsTraced claimed response ts ts' e c =
        let said : IsTraced g id d.request_id (ran (says response) ts' []) ts = record {
          changes = decided t.now d ∷ [];
          writes = sym e;
          spares = (tt, tt);
          claimed = omega arith;
        } in
        elim (Option-cases (lookup d.request_id ts')) [
          | inl absent ↦ rw (absent, after_decision) said
          | inr (r, present) ↦
              rw (present, after_decision)
                (elim (Bool-cases (
                  is_approve d.action
                  && claimed
                  && is_executing r
                  && is_claim r.claim_id d.claim_id)) [
                    | inl own ↦
                        let tail =
                          after_claim-IsTail g id t others_again h_again eq_again d who r
                            (t.others ts') in
                        rw own (record {
                          changes = decided t.now d ∷ (others ++ tail.changes);
                          writes =
                              tail.writes
                              ∙ ap (apply_all g tail.changes) (eq ts')
                              ∙ sym (apply_all-append g others tail.changes ts')
                              ∙ ap (apply_all g (others ++ tail.changes)) (sym e);
                          spares = (tt, AllSpare-append id others tail.changes h tail.spares);
                          claimed = rw c (ground (arith, own, tail.once));
                        })
                    | inr other ↦ rw other said
                  ])
        ]

    given_up-IsTraced :
        (claimed cancelled : Bool) (changes : List Change) (ts ts' : Tasks)
        → AllSpare id changes
        → ts' ≡ apply_all g changes ts
        → IsTraced g id d.request_id (give_up t d claimed cancelled [] (t.others ts')) ts
    unfolding give_up
    given_up-IsTraced claimed cancelled changes ts ts' k e =
        silent-IsTraced _ ts
          (IsTail-after g id _ changes ts k (
            rw (← e) (
              IsTail-after g id _ others ts' h (
                rw (← eq ts')
                  (give_up-IsTail g id t d claimed cancelled [] (t.others ts') (omega arith))))))
          refl

    after_write-IsTraced :
        (claiming : Saving) (cancelled : Bool) (ts : Tasks)
        → IsTraced g id d.request_id
            (after_write g t d who cancelled
              (left_by claiming
                (false, not_found_text)
                (decide_tasks g.encoding g.scrub t.now d)
                ts).0
              (store_update claiming (decide_tasks g.encoding g.scrub t.now d) ts).0
              (store_update claiming (decide_tasks g.encoding g.scrub t.now d) ts).1)
            ts
    unfolding after_write store_update left_by apply is_claiming
    after_write-IsTraced saved true ts =
        given_up-IsTraced _ true (decided t.now d ∷ []) ts _ (tt, tt) refl
    after_write-IsTraced saved false ts =
        after_decision-IsTraced _ _ ts _ refl
          (ground (arith, text_eq_iff d.request_id d.request_id))
    after_write-IsTraced lost true ts =
        given_up-IsTraced _ true (decided t.now d ∷ []) ts _ (tt, tt) refl
    after_write-IsTraced lost false ts =
        given_up-IsTraced _ false (decided t.now d ∷ []) ts _ (tt, tt) refl
    after_write-IsTraced refused true ts = given_up-IsTraced _ true [] ts _ tt refl
    after_write-IsTraced refused false ts = given_up-IsTraced _ false [] ts _ tt refl
    after_write-IsTraced unread true ts = given_up-IsTraced _ true [] ts _ tt refl
    after_write-IsTraced unread false ts = given_up-IsTraced _ false [] ts _ tt refl

    decide_stored-IsTraced :
        (ts : Tasks) → IsTraced g id d.request_id (decide_stored g t d who ts) ts
    unfolding decide_stored
    decide_stored-IsTraced ts = after_write-IsTraced t.claiming t.cancelled_claiming ts

    decide_begun-IsTraced :
        (first : Bool) (ts : Tasks)
        → IsTraced g id d.request_id
            (if first then give_up t d false true [] ts else decide_stored g t d who ts)
            ts
    unfolding give_up
    decide_begun-IsTraced true ts = record {
      changes = [];
      writes = refl;
      spares = tt;
      claimed = omega arith;
    }
    decide_begun-IsTraced false ts = decide_stored-IsTraced ts

  -- A run of `decide` writes changes of the gate only, and runs the tool no more often than these claim
  -- the request of the command.
  pub decide-IsTraced :
      (scope : ChatScope) (a : Actor) (text id : Text) (ts : Tasks)
      → AllSpare id others
      → AllSpare id others_again
      → IsTraced g id (requested text) (decide g scope a text t ts) ts
  unfolding decide
  decide-IsTraced scope a text id ts h h_again = elim (Option-cases (parse_command text)) [
    | inl none_such ↦
        rw (none_such, decide)
          (record { changes = []; writes = refl; spares = tt; claimed = omega arith })
    | inr (command, c) ↦ elim (Option-cases (actor g.authorities scope a)) [
      | inl denied ↦
          rw (c, denied, decide)
            (record { changes = []; writes = refl; spares = tt; claimed = omega arith })
      | inr (who, known) ↦
          rw (c, known, decide, requested)
            (decide_begun-IsTraced id _ who h h_again t.cancelled_first ts)
    ]
  ]
