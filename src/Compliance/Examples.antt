-- ===== src/Compliance/Examples.antt =====
-- One case and its requester: tests of the patterns, and the theorems of Compliance at this case.
use ess_mcp.Prelude.{
  ◌≤◌, ◌≡◌, ◌≢◌, refl, ap, true, false, none, some, List, [], ◌∷◌, arith, Text, codes, ascii,
  text_eq, member, lower, ok,
}
use ess_mcp.Memory.Saving.{saved, lost, store_update}
use ess_mcp.Compliance.Identity.{
  CaseIdentity, Authority, case_identity, authority, same_authority, is_guid, is_confirmation,
}
use ess_mcp.Compliance.Record.{
  awaiting_confirmation, closed, CaseRecord, same_status, holds, change_if, claim_close,
  complete_close, Change, receive_claim, receive_complete, answer_claim, apply_all,
}
use ess_mcp.Compliance.Record.Once.{
  wins, is_receive_claim, is_answer_claim, is_close_claim, claims_once, final_unchanged,
}
use ess_mcp.Compliance.Workflow.{
  returned, answer_delivered, close, may_close, after_close_claim, close_remotely, record_closure,
  announced,
}
use ess_mcp.Compliance.Workflow.Tails.{count_calls, is_create, is_deliver, is_closure}
use ess_mcp.Compliance.Workflow.Trace.{IsTraced, answer_delivered-IsTraced, close-IsTraced}
use ess_mcp.Compliance.Workflow.Once.{Notification, receive_all, receive_all-once}
use ess_mcp.Compliance.Workflow.Branches.{registered, uncertain}

abbrev identity : CaseIdentity
identity = record {
  tenant_id = codes "11111111-2222-3333-4444-555555555555";
  instance_id = codes "aaaaaaaa-2222-3333-4444-555555555555";
  manager_id = codes "bbbbbbbb-2222-3333-4444-555555555555";
  requester_id = codes "CCCCCCCC-2222-3333-4444-555555555555";
  message_id = codes "<mail-1@example.com>";
  private_conversation_id = codes "19:chat";
}

identity_accepted : case_identity ascii identity ≡ ok identity
unfolding case_identity
identity_accepted = refl

guid_too_short : is_guid (codes "1111111-2222-3333-4444-555555555555") ≡ false
unfolding is_guid
guid_too_short = refl

abbrev confirmation : Text
confirmation = codes " Yes, that resolves my question, please close my case. "

confirms : is_confirmation ascii confirmation ≡ true
unfolding is_confirmation member text_eq
confirms = refl

rejects : is_confirmation ascii (codes "yes that answers it, please close my case") ≡ false
unfolding is_confirmation member text_eq
rejects = refl

abbrev who : Authority
who = authority identity

abbrev waiting : CaseRecord
waiting = record {
  authority = who;
  status = awaiting_confirmation;
  case_id = some (codes "500A1");
  case_number = some (codes "00012");
  evidence_ids = some (codes "e1" ∷ []);
  answer_message_id = some (codes "m1");
  confirmation = none;
}

abbrev changes : List Change
changes =
    receive_claim who
    ∷ receive_claim who
    ∷ receive_complete who (codes "500A1") (codes "00012")
    ∷ answer_claim who
    ∷ []

claims_once_example :
    (wins is_receive_claim changes none ≤ 1)
    × (wins is_answer_claim changes none ≤ 1)
    × (wins is_close_claim changes none ≤ 1)
claims_once_example = claims_once changes none

final_unchanged_example : apply_all changes (some (uncertain who)) ≡ some (uncertain who)
final_unchanged_example = final_unchanged changes (some (uncertain who)) (omega arith)

abbrev stranger : Authority
stranger = record who { requester = codes "dddddddd-2222-3333-4444-555555555555" }

stranger-ne : stranger ≢ who
unfolding authority lower text_eq
stranger-ne e = cc (ap (λ (a : Authority). text_eq a.requester who.requester) e)

abbrev notification : Notification
notification = record {
  identity = identity;
  claiming = saved;
  others = receive_claim who ∷ [];
  answer = returned (some (codes "500A1"), some (codes "00012"));
  receipt = lost;
}

receive_all-once_example :
    count_calls is_create (receive_all (notification ∷ notification ∷ []) none).1 ≤ 1
receive_all-once_example = receive_all-once (notification ∷ notification ∷ []) none

answer_delivered-IsTraced_example :
    IsTraced is_deliver is_answer_claim
      (answer_delivered identity ascii
        (codes "e1" ∷ [])
        saved
        (apply_all changes)
        (returned (some (codes "m1")))
        saved
        (some (registered who (codes "500A1") (codes "00012"))))
      (some (registered who (codes "500A1") (codes "00012")))
answer_delivered-IsTraced_example =
    answer_delivered-IsTraced identity ascii (codes "e1" ∷ []) saved changes
      (returned (some (codes "m1"))) saved (some (registered who (codes "500A1") (codes "00012")))

close-IsTraced_example :
    IsTraced is_closure is_close_claim
      (close identity ascii identity.requester_id
        (codes "19:chat")
        (some confirmation)
        saved
        (apply_all changes)
        (returned tt)
        (returned (codes "Closed"))
        saved
        (some waiting))
      (some waiting)
close-IsTraced_example =
    close-IsTraced identity ascii identity.requester_id (codes "19:chat") (some confirmation) saved
      changes (returned tt) (returned (codes "Closed")) saved (some waiting)

abbrev finished : CaseRecord
finished = record waiting {
  status = closed;
  confirmation = some (codes "explicit requester confirmation");
}

program : Unit {0}
unfolding close may_close after_close_claim close_remotely record_closure announced store_update
    claim_close complete_close change_if holds same_status same_authority text_eq lower authority
    is_confirmation member
program = tt
