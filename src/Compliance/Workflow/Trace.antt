-- ===== src/Compliance/Workflow/Trace.antt =====
-- Each method writes changes of its own only, and calls its effect no more often than these win the
-- claim before it.
use ess_mcp.Prelude.{
  ◌≤◌, ◌≡◌, refl, sym, ap, ◌∙◌, Bool, true, false, not, ◌||◌, Option, none, some, List, [], ◌∷◌,
  ◌++◌, arith, Bool-cases, Option-cases, inl, inr, Text, Unicode, length, ltb, ◌==◌, any,
}
use ess_mcp.Compliance.Identity.{
  CaseIdentity, authority, same_authority, same_authority_iff, is_opaque_id,
}
use ess_mcp.Compliance.Record.{
  Case, claim_receive, claim_answer, claim_close, Change, receive_claim, answer_claim, close_claim,
  apply, apply_all,
}
use ess_mcp.Compliance.Record.Once.{wins, is_receive_claim, is_answer_claim, is_close_claim}
use ess_mcp.Memory.Saving.{Saving, saved, unread, refused, lost, store_update}
use ess_mcp.Compliance.Workflow.{
  Answer, Call, Ran, receive, answer_delivered, announced, may_close, close, Event, case_closing,
  after_answer_claim, after_close_claim,
}
use ess_mcp.Compliance.Workflow.Tails.{
  count_calls, is_create, is_deliver, is_closure, apply_all-append, IsTail, create-IsTail,
  deliver_answer-IsTail, close_remotely-IsTail,
}

-- The run's writes, those of the other calls during it included, are `changes`.
pub record IsTraced (effect : Call → Bool) (claim : Change → Bool) (run : Ran) (c : Case)
    : Type 0 where
  pub changes : List Change
  pub writes : run.stored ≡ apply_all changes c
  pub claimed : count_calls effect run.calls ≤ wins claim changes c

-- A run that won its claim and went on among the changes `others` of other calls.
tail-IsTraced :
    (effect : Call → Bool) (claim : Change → Bool) (run : Ran) (x : Change) (others : List Change)
    (c : Case)
    → claim x ≡ true
    → (apply x c).0 ≡ true
    → IsTail effect run (apply_all others (apply x c).1)
    → IsTraced effect claim run c
tail-IsTraced effect claim run x others c here won t = record {
  changes = x ∷ (others ++ t.changes);
  writes = t.writes ∙ sym (apply_all-append others t.changes (apply x c).1);
  claimed = rw (here, won) (omega (arith, t.once));
}

-- A run that wrote one change at most, and called nothing.
silent-IsTraced :
    (effect : Call → Bool) (claim : Change → Bool) (run : Ran) (changes : List Change) (c : Case)
    → run.stored ≡ apply_all changes c
    → run.calls ≡ []
    → IsTraced effect claim run c
silent-IsTraced effect claim run changes c w e = record {
  changes = changes;
  writes = w;
  claimed = rw e (omega arith);
}

module _ (i : CaseIdentity) where
  -- The writes of a run of `receive` are changes of the case, and it calls `create_case` no more often
  -- than these win the claim, whatever the callback answers, however the writes end, and whatever
  -- other calls write in between.
  pub receive-IsTraced :
      (claiming : Saving) (others : List Change) (answer : Answer (Option Text × Option Text))
      (receipt : Saving) (c : Case)
      → IsTraced is_create is_receive_claim
          (receive i claiming (apply_all others) answer receipt c)
          c
  unfolding receive store_update apply claim_receive
  receive-IsTraced refused others answer receipt c = silent-IsTraced _ _ _ [] c refl refl
  receive-IsTraced unread others answer receipt c = silent-IsTraced _ _ _ [] c refl refl
  receive-IsTraced lost others answer receipt c =
      silent-IsTraced _ _ _ (receive_claim (authority i) ∷ []) c refl refl
  receive-IsTraced saved others answer receipt none =
      tail-IsTraced is_create is_receive_claim _ (receive_claim (authority i)) others none refl refl
        (rw ((same_authority_iff (authority i) (authority i)).1 refl)
          (create-IsTail i answer receipt _))
  receive-IsTraced saved others answer receipt (some r) =
      silent-IsTraced _ _ _ (receive_claim (authority i) ∷ []) (some r) (ground arith)
        (ground arith)

  after_answer_claim-IsTraced :
      (u : Unicode) (evidence : List Text) (others : List Change) (answer : Answer (Option Text))
      (receipt : Saving) (c : Case) (claimed : Bool) (c' : Case)
      → apply (answer_claim (authority i)) c ≡ (claimed, c')
      → IsTraced is_deliver is_answer_claim
          (after_answer_claim i u evidence
            (apply_all others)
            answer
            receipt
            (some (claimed, c'))
            c')
          c
  unfolding after_answer_claim
  after_answer_claim-IsTraced u evidence others answer receipt c claimed none e =
      silent-IsTraced _ _ _ (answer_claim (authority i) ∷ []) c (sym (ap (λ p. p.1) e)) refl
  after_answer_claim-IsTraced u evidence others answer receipt c false (some r) e =
      silent-IsTraced _ _ _ (answer_claim (authority i) ∷ []) c (sym (ap (λ p. p.1) e)) refl
  after_answer_claim-IsTraced u evidence others answer receipt c true (some r) e =
      elim (Bool-cases (same_authority r.authority (authority i))) [
        | inl same ↦ rw same (
            tail-IsTraced is_deliver is_answer_claim _ (answer_claim (authority i)) others c refl
              (ap (λ p. p.0) e)
              (rw e
                (deliver_answer-IsTail i u evidence answer receipt (apply_all others (some r)))))
        | inr differs ↦
            rw differs (
              silent-IsTraced _ _ _ (answer_claim (authority i) ∷ []) c (sym (ap (λ p. p.1) e))
                refl)
      ]

  answer_claimed-IsTraced :
      (u : Unicode) (evidence : List Text) (others : List Change) (answer : Answer (Option Text))
      (receipt : Saving) (c : Case) (claiming : Saving)
      → IsTraced is_deliver is_answer_claim
          (after_answer_claim i u evidence
            (apply_all others)
            answer
            receipt
            (store_update claiming (claim_answer (authority i)) c).0
            (store_update claiming (claim_answer (authority i)) c).1)
          c
  unfolding store_update apply after_answer_claim
  answer_claimed-IsTraced u evidence others answer receipt c saved =
      let (claimed, c') = claim_answer (authority i) c in
      after_answer_claim-IsTraced u evidence others answer receipt c claimed c' refl
  answer_claimed-IsTraced u evidence others answer receipt c refused =
      silent-IsTraced _ _ _ [] c refl refl
  answer_claimed-IsTraced u evidence others answer receipt c unread =
      silent-IsTraced _ _ _ [] c refl refl
  answer_claimed-IsTraced u evidence others answer receipt c lost =
      silent-IsTraced _ _ _ (answer_claim (authority i) ∷ []) c refl refl

  -- The writes of a run of `answer_delivered` are changes of the case, and it calls `deliver` no more
  -- often than these win the claim, whatever the callback answers, however the writes end, and whatever
  -- other calls write in between.
  pub answer_delivered-IsTraced :
      (u : Unicode) (evidence : List Text) (claiming : Saving) (others : List Change)
      (answer : Answer (Option Text)) (receipt : Saving) (c : Case)
      → IsTraced is_deliver is_answer_claim
          (answer_delivered i u evidence claiming (apply_all others) answer receipt c)
          c
  unfolding answer_delivered
  answer_delivered-IsTraced u evidence claiming others answer receipt c =
      elim (Bool-cases (
        (length evidence == 0)
        || ltb 32 (length evidence)
        || any (λ e. not (is_opaque_id u e)) evidence)) [
          | inl bad ↦ rw (bad, answer_delivered) (silent-IsTraced _ _ _ [] c refl refl)
          | inr good ↦
              rw (good, answer_delivered)
                (answer_claimed-IsTraced u evidence others answer receipt c claiming)
        ]

  announced-IsTail :
      (e : Event) (run : Ran) (c : Case)
      → IsTail is_closure run c
      → IsTail is_closure (announced e run) c
  unfolding announced
  announced-IsTail e run c t = record { changes = t.changes; writes = t.writes; once = t.once }

  after_close_claim-IsTraced :
      (others : List Change) (done : Answer (Unit {0})) (status : Answer Text) (receipt : Saving)
      (c : Case) (claimed : Bool) (c' : Case)
      → apply (close_claim (authority i)) c ≡ (claimed, c')
      → IsTraced is_closure is_close_claim
          (after_close_claim i (apply_all others) done status receipt (some (claimed, c')) c')
          c
  unfolding after_close_claim
  after_close_claim-IsTraced others done status receipt c claimed none e =
      silent-IsTraced _ _ _ (close_claim (authority i) ∷ []) c (sym (ap (λ p. p.1) e)) refl
  after_close_claim-IsTraced others done status receipt c false (some r) e =
      silent-IsTraced _ _ _ (close_claim (authority i) ∷ []) c (ground arith) (ground arith)
  after_close_claim-IsTraced others done status receipt c true (some r) e =
      elim (Bool-cases (same_authority r.authority (authority i))) [
        | inl same ↦ rw same (elim (Option-cases r.case_number) [
          | inl absent ↦ rw absent (
              silent-IsTraced _ _ _ (close_claim (authority i) ∷ []) c (sym (ap (λ p. p.1) e)) refl)
          | inr (number, present) ↦ rw present (
              tail-IsTraced is_closure is_close_claim _ (close_claim (authority i)) others c refl
                (ap (λ p. p.0) e)
                (rw e (
                  announced-IsTail (case_closing number) _ _ (
                    close_remotely-IsTail i r.case_id done status receipt
                      (apply_all others (some r))))))
        ])
        | inr differs ↦
            rw differs (
              silent-IsTraced _ _ _ (close_claim (authority i) ∷ []) c (sym (ap (λ p. p.1) e)) refl)
      ]

  close_claimed-IsTraced :
      (others : List Change) (done : Answer (Unit {0})) (status : Answer Text) (receipt : Saving)
      (c : Case) (claiming : Saving)
      → IsTraced is_closure is_close_claim
          (after_close_claim i
            (apply_all others)
            done
            status
            receipt
            (store_update claiming (claim_close (authority i)) c).0
            (store_update claiming (claim_close (authority i)) c).1)
          c
  unfolding store_update apply after_close_claim
  close_claimed-IsTraced others done status receipt c saved =
      let (claimed, c') = claim_close (authority i) c in
      after_close_claim-IsTraced others done status receipt c claimed c' refl
  close_claimed-IsTraced others done status receipt c refused = silent-IsTraced _ _ _ [] c refl refl
  close_claimed-IsTraced others done status receipt c unread = silent-IsTraced _ _ _ [] c refl refl
  close_claimed-IsTraced others done status receipt c lost =
      silent-IsTraced _ _ _ (close_claim (authority i) ∷ []) c refl refl

  -- The writes of a run of `close` are changes of the case, and it calls `close_case` of Salesforce no
  -- more often than these win the claim, whatever Salesforce answers, however the writes end, and
  -- whatever other calls write in between.
  pub close-IsTraced :
      (u : Unicode) (sender conversation : Text) (message : Option Text) (claiming : Saving)
      (others : List Change) (done : Answer (Unit {0})) (status : Answer Text) (receipt : Saving)
      (c : Case)
      → IsTraced is_closure is_close_claim
          (close i u sender conversation message claiming (apply_all others) done status receipt c)
          c
  unfolding close
  close-IsTraced u sender conversation message claiming others done status receipt c =
      elim (Bool-cases (may_close i u sender conversation message)) [
        | inl may ↦ rw (may, close) (close_claimed-IsTraced others done status receipt c claiming)
        | inr not_so ↦ rw (not_so, close) (silent-IsTraced _ _ _ [] c refl refl)
      ]
