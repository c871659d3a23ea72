-- ===== src/Compliance/Workflow.antt =====
-- demo_agent/compliance_case.py, `CaseWorkflow`: each method whole, from its first claim to its last
-- receipt. What the callbacks answer, how each write of the store ends, and what other calls write
-- during the callbacks are arguments.

pub mod Tails
pub mod Trace
pub mod Once
pub mod Branches
use ess_mcp.Prelude.{
  ℕ, ◌≡◌, Bool, true, false, not, ◌&&◌, ◌||◌, Option, none, some, List, [], ◌∷◌, ◌++◌, leb, ltb,
  ◌==◌, if◌then◌else◌, length, any, Text, Unicode, codes, text_eq, lower, Result, ok, err,
}
use ess_mcp.Memory.Saving.{Saving, saved, refused, lost, store_update}
use ess_mcp.Compliance.Identity.{
  CaseError, value_error, permission_error, runtime_error, key_error, callback, storage,
  CaseIdentity, authority, same_authority, is_reference, is_opaque_id, is_confirmation,
}
use ess_mcp.Compliance.Record.{
  Status, creating, investigating, answer_delivery_pending, awaiting_confirmation, closing, closed,
  CaseRecord, Case, same_status, claim_receive, complete_receive, claim_answer, complete_answer,
  claim_close, complete_close, mark_uncertain,
}

pub data Answer (A : Type 0) : Type 0 where
  returned : A → Answer A
  raised : Answer A

pub data Event : Type 0 where
  case_received : Event
  case_registered case_answer_delivered case_closing case_closed : Text → Event

-- The external effects, in the order of the calls.
pub data Call : Type 0 where
  create_case deliver : Call
  close_case read_status : Text → Call

pub record Ran : Type 0 where
  pub reply : Result CaseError CaseRecord
  pub stored : Case
  pub calls : List Call
  pub events : List Event

abbrev pub ran : Result CaseError CaseRecord → Case → List Call → List Event → Ran
ran reply stored calls events = record {
  reply = reply;
  stored = stored;
  calls = calls;
  events = events;
}

-- `_record`
unfoldable pub read_record : CaseIdentity → Case → Result CaseError Case
read_record i none = ok none
read_record i (some r) =
    if same_authority r.authority (authority i) then ok (some r) else err permission_error

-- A failure of this write is swallowed.
unfoldable pub after_failure : CaseIdentity → Status → Saving → Case → Case
after_failure i expected saving c =
    (store_update saving (mark_uncertain (authority i) expected) c).1

-- A Python value that is a `str`, or is none.
abbrev pub checked : (Text → Bool) → Option Text → Bool
checked p none = false
checked p (some s) = p s

abbrev pub or_empty : Option Text → Text
or_empty none = []
or_empty (some s) = s

-- the events that come before those of `r`
unfoldable pub announced : Event → Ran → Ran
announced e r = record r { events = e ∷ r.events }

module _ (i : CaseIdentity) where
  -- the receipt of `receive`, on what is stored when the case was created
  unfoldable pub register : Text → Text → Saving → Case → Ran
  register id number saving c =
      let (result, c') = store_update saving (complete_receive (authority i) id number) c in
      elim result [
        | none ↦ ran (err storage) c' (create_case ∷ []) (case_received ∷ [])
        | some (_, none) ↦ ran (err key_error) c' (create_case ∷ []) (case_received ∷ [])
        | some (_, some r) ↦
            if checked (text_eq id) r.case_id
            then ran (ok r) c' (create_case ∷ []) (case_received ∷ case_registered number ∷ [])
            else ran (err runtime_error) c' (create_case ∷ []) (case_received ∷ [])
      ]

  -- `receive` after its claim was won
  unfoldable pub create : Answer (Option Text × Option Text) → Saving → Case → Ran
  create raised saving c =
      ran (err callback) (after_failure i creating saving c) (create_case ∷ []) (case_received ∷ [])
  create (returned (id, number)) saving c =
      if checked is_reference id && checked is_reference number
      then register (or_empty id) (or_empty number) saving c
      else ran (err value_error) (after_failure i creating saving c) (create_case ∷ [])
          (case_received ∷ [])

  unfoldable pub receive :
      Saving → (Case → Case) → Answer (Option Text × Option Text) → Saving → Case → Ran
  receive claiming others answer receipt c =
      let (result, c') = store_update claiming (claim_receive (authority i)) c in
      elim result [
        | none ↦ ran (err storage) c' [] []
        | some (claimed, none) ↦ ran (err key_error) c' [] []
        | some (claimed, some r) ↦
            if not (same_authority r.authority (authority i))
            then ran (err permission_error) c' [] []
            else if not claimed
            then ran (ok r) c' [] []
            else create answer receipt (others c')
      ]

  -- the receipt of `answer_delivered`
  unfoldable pub record_answer : List Text → Text → Saving → Case → Ran
  record_answer evidence message saving c =
      let (result, c') = store_update saving (complete_answer (authority i) evidence message) c in
      elim result [
        | none ↦ ran (err storage) c' (deliver ∷ []) []
        | some (_, none) ↦ ran (err key_error) c' (deliver ∷ []) []
        | some (_, some r) ↦
            if checked (text_eq message) r.answer_message_id
            then (elim r.case_number [
              | none ↦ ran (err key_error) c' (deliver ∷ []) []
              | some number ↦ ran (ok r) c' (deliver ∷ []) (case_answer_delivered number ∷ [])
            ])
            else ran (err runtime_error) c' (deliver ∷ []) []
      ]

  unfoldable pub deliver_answer : Unicode → List Text → Answer (Option Text) → Saving → Case → Ran
  deliver_answer u evidence raised saving c =
      ran (err callback) (after_failure i answer_delivery_pending saving c) (deliver ∷ []) []
  deliver_answer u evidence (returned message) saving c =
      if checked (is_opaque_id u) message
      then record_answer evidence (or_empty message) saving c
      else ran (err value_error) (after_failure i answer_delivery_pending saving c) (deliver ∷ [])
          []

  -- `answer_delivered` after its claim: what the write returned, and what is stored
  unfoldable pub after_answer_claim :
      Unicode
      → List Text
      → (Case → Case)
      → Answer (Option Text)
      → Saving
      → Option (Bool × Case)
      → Case
      → Ran
  after_answer_claim u evidence others answer receipt none c = ran (err storage) c [] []
  after_answer_claim u evidence others answer receipt (some (claimed, none)) c =
      ran (err permission_error) c [] []
  after_answer_claim u evidence others answer receipt (some (claimed, some r)) c =
      if not claimed || not (same_authority r.authority (authority i))
      then ran (err permission_error) c [] []
      else deliver_answer u evidence answer receipt (others c)

  unfoldable pub answer_delivered :
      Unicode → List Text → Saving → (Case → Case) → Answer (Option Text) → Saving → Case → Ran
  answer_delivered u evidence claiming others answer receipt c =
      if (length evidence == 0)
        || ltb 32 (length evidence)
        || any (λ e. not (is_opaque_id u e)) evidence
      then ran (err value_error) c [] []
      else (let (result, c') = store_update claiming (claim_answer (authority i)) c in
          after_answer_claim u evidence others answer receipt result c')

  -- the receipt of `close`
  unfoldable pub record_closure : Text → Saving → Case → Ran
  record_closure id saving c =
      let calls = close_case id ∷ read_status id ∷ [] in
      let (result, c') = store_update saving (complete_close (authority i)) c in
      elim result [
        | none ↦ ran (err storage) c' calls []
        | some (_, none) ↦ ran (err key_error) c' calls []
        | some (_, some r) ↦
            if same_status r.status closed
            then (elim r.case_number [
              | none ↦ ran (err key_error) c' calls []
              | some number ↦ ran (ok r) c' calls (case_closed number ∷ [])
            ])
            else ran (err runtime_error) c' calls []
      ]

  -- The calls of Salesforce, for the record that was claimed.
  unfoldable pub close_remotely :
      Option Text → Answer (Unit {0}) → Answer Text → Saving → Case → Ran
  close_remotely none done status saving c =
      ran (err key_error) (after_failure i closing saving c) [] []
  close_remotely (some id) raised status saving c =
      ran (err callback) (after_failure i closing saving c) (close_case id ∷ []) []
  close_remotely (some id) (returned _) raised saving c =
      ran (err callback) (after_failure i closing saving c) (close_case id ∷ read_status id ∷ []) []
  close_remotely (some id) (returned _) (returned status) saving c =
      if text_eq (lower status) (codes "closed")
      then record_closure id saving c
      else ran (err runtime_error) (after_failure i closing saving c)
          (close_case id ∷ read_status id ∷ []) []

  -- Whether the message is the bound requester's explicit confirmation; `none` is no `str`.
  unfoldable pub may_close : Unicode → Text → Text → Option Text → Bool
  may_close u sender conversation none = false
  may_close u sender conversation (some message) =
      text_eq (lower sender) (lower i.requester_id)
      && text_eq conversation i.private_conversation_id
      && leb (length message) 1000
      && is_confirmation u message

  -- `close` after its claim: what the write returned, and what is stored
  unfoldable pub after_close_claim :
      (Case → Case) → Answer (Unit {0}) → Answer Text → Saving → Option (Bool × Case) → Case → Ran
  after_close_claim others done status receipt none c = ran (err storage) c [] []
  after_close_claim others done status receipt (some (claimed, none)) c =
      ran (err permission_error) c [] []
  after_close_claim others done status receipt (some (claimed, some r)) c =
      if not (same_authority r.authority (authority i))
      then ran (err permission_error) c [] []
      else if not claimed
      then ran (ok r) c [] []
      else (elim r.case_number [
        | none ↦ ran (err key_error) c [] []
        | some number ↦
            announced (case_closing number)
              (close_remotely r.case_id done status receipt (others c))
      ])

  unfoldable pub close :
      Unicode
      → Text
      → Text
      → Option Text
      → Saving
      → (Case → Case)
      → Answer (Unit {0})
      → Answer Text
      → Saving
      → Case
      → Ran
  close u sender conversation message claiming others done status receipt c =
      if not (may_close u sender conversation message)
      then ran (err permission_error) c [] []
      else (let (result, c') = store_update claiming (claim_close (authority i)) c in
          after_close_claim others done status receipt result c')
