-- ===== src/Compliance/Workflow/Branches.antt =====
-- What each method answers and leaves stored, branch by branch.
use ess_mcp.Prelude.{
  ◌≡◌, refl, true, false, ◌&&◌, Option, none, some, [], ◌∷◌, arith, Text, ok, codes, text_eq,
  text_eq_refl, lower,
}
use ess_mcp.Compliance.Identity.{
  Authority, CaseIdentity, authority, same_authority_iff, is_reference,
}
use ess_mcp.Compliance.Record.{
  investigating, closing, write_outcome_unknown, CaseRecord, Case, same_status, holds, change_if,
  claim_receive, complete_receive,
}
use ess_mcp.Memory.Saving.{Saving, saved, store_update}
use ess_mcp.Compliance.Workflow.{
  Answer, returned, raised, create_case, case_received, case_registered, ran, checked, register,
  create, receive,
}

abbrev quiet : Case → Case
quiet c = c

-- The record of a case that was registered.
abbrev pub registered : Authority → Text → Text → CaseRecord
registered a id number = record {
  authority = a;
  status = investigating;
  case_id = some id;
  case_number = some number;
  evidence_ids = none;
  answer_message_id = none;
  confirmation = none;
}

abbrev pub uncertain : Authority → CaseRecord
uncertain a = record {
  authority = a;
  status = write_outcome_unknown;
  case_id = none;
  case_number = none;
  evidence_ids = none;
  answer_message_id = none;
  confirmation = none;
}

-- The closure did not raise, and Salesforce then reported the status closed.
abbrev pub RemotelyClosed : Answer (Unit {0}) → Answer Text → Type 0
RemotelyClosed done status =
    (done ≡ returned tt)
    × ((answer : Text) × (status ≡ returned answer)
        × (text_eq (lower answer) (codes "closed") ≡ true))

-- A creation that raised, or that returned anything but two references.
abbrev pub IsUnverified : Answer (Option Text × Option Text) → Type 0
IsUnverified raised = Unit
IsUnverified (returned (id, number)) =
    (checked is_reference id && checked is_reference number) ≡ false

module _ (i : CaseIdentity) where
  -- A first notification whose creation returns verified references, with no other call and a store
  -- that works, registers the case: one creation, both events, and the record under investigation.
  pub receive_registers :
      (id number : Text)
      → is_reference id ≡ true
      → is_reference number ≡ true
      → receive i saved quiet (returned (some id, some number)) saved none
        ≡ ran
            (ok (registered (authority i) id number))
            (some (registered (authority i) id number))
            (create_case ∷ [])
            (case_received ∷ case_registered number ∷ [])
  unfolding receive create register store_update claim_receive complete_receive change_if holds
      same_status
  receive_registers id number p q =
      ground (arith, (same_authority_iff (authority i) (authority i)).1 refl, text_eq_refl id)

  abbrev claimed : CaseRecord → CaseRecord
  claimed r = record r {
    status = closing;
    confirmation = some (codes "explicit requester confirmation");
  }
