-- ===== src/Compliance/Record.antt =====
-- demo_agent/compliance_case.py: the case record under `tasks`, and each change that the workflow
-- makes to it. A change is the transform of one `store.update`; its Boolean is the `claimed` of the
-- method.
pub mod Once
pub mod Forms
use ess_mcp.Prelude.{
  ℕ, ◌≡◌, refl, Bool, true, false, not, ◌&&◌, Option, none, some, List, [], ◌∷◌, if◌then◌else◌,
  Text, codes,
}
use ess_mcp.Compliance.Identity.{Authority, same_authority}

pub data Status : Type 0 where
  creating investigating answer_delivery_pending awaiting_confirmation closing closed : Status
  write_outcome_unknown : Status

-- A key that the dictionary lacks is `none`.
pub record CaseRecord : Type 0 where
  pub authority : Authority
  pub status : Status
  pub case_id : Option Text
  pub case_number : Option Text
  pub evidence_ids : Option (List Text)
  pub answer_message_id : Option Text
  pub confirmation : Option Text

-- `state["tasks"].get("case")`
abbrev pub Case : Type 0
Case = Option CaseRecord

pub Status-discrete : Discrete Status
Status-discrete = hlevel

unfoldable pub same_status : Status → Status → Bool
same_status creating creating = true
same_status investigating investigating = true
same_status answer_delivery_pending answer_delivery_pending = true
same_status awaiting_confirmation awaiting_confirmation = true
same_status closing closing = true
same_status closed closed = true
same_status write_outcome_unknown write_outcome_unknown = true
same_status _ _ = false

-- the record is the identity's and has the status
unfoldable pub holds : Authority → Status → CaseRecord → Bool
holds a s r = same_authority r.authority a && same_status r.status s

-- Changes the record where it is the identity's and has the status; true if it did.
unfoldable pub change_if : Authority → Status → (CaseRecord → CaseRecord) → Case → Bool × Case
change_if a s f none = (false, none)
change_if a s f (some r) = if holds a s r then (true, some (f r)) else (false, some r)

-- `claim` of `receive`
unfoldable pub claim_receive : Authority → Case → Bool × Case
claim_receive a none = (
  true,
  some (record {
    authority = a;
    status = creating;
    case_id = none;
    case_number = none;
    evidence_ids = none;
    answer_message_id = none;
    confirmation = none;
  }),
)
claim_receive a (some r) = (false, some r)

-- `complete` of `receive`
unfoldable pub complete_receive : Authority → Text → Text → Case → Bool × Case
complete_receive a id number =
    change_if a creating
      (λ r. record r { status = investigating; case_id = some id; case_number = some number })

-- `claim` of `answer_delivered`
unfoldable pub claim_answer : Authority → Case → Bool × Case
claim_answer a = change_if a investigating (λ r. record r { status = answer_delivery_pending })

-- `complete` of `answer_delivered`
unfoldable pub complete_answer : Authority → List Text → Text → Case → Bool × Case
complete_answer a evidence message = change_if a answer_delivery_pending λ r. record r {
  status = awaiting_confirmation;
  evidence_ids = some evidence;
  answer_message_id = some message;
}

-- `claim` of `close`
unfoldable pub claim_close : Authority → Case → Bool × Case
claim_close a = change_if a awaiting_confirmation λ r. record r {
  status = closing;
  confirmation = some (codes "explicit requester confirmation");
}

-- `complete` of `close`
unfoldable pub complete_close : Authority → Case → Bool × Case
complete_close a = change_if a closing (λ r. record r { status = closed })

-- `mark` of `_mark_uncertain`
unfoldable pub mark_uncertain : Authority → Status → Case → Bool × Case
mark_uncertain a expected = change_if a expected (λ r. record r { status = write_outcome_unknown })

-- Everything that a call of the workflow writes.
pub data Change : Type 0 where
  receive_claim answer_claim close_claim close_complete : Authority → Change
  receive_uncertain answer_uncertain close_uncertain : Authority → Change
  receive_complete : Authority → Text → Text → Change
  answer_complete : Authority → List Text → Text → Change

unfoldable pub apply : Change → Case → Bool × Case
apply (receive_claim a) = claim_receive a
apply (answer_claim a) = claim_answer a
apply (close_claim a) = claim_close a
apply (close_complete a) = complete_close a
apply (receive_complete a id number) = complete_receive a id number
apply (answer_complete a evidence message) = complete_answer a evidence message
apply (receive_uncertain a) = mark_uncertain a creating
apply (answer_uncertain a) = mark_uncertain a answer_delivery_pending
apply (close_uncertain a) = mark_uncertain a closing

-- Any interleaving of calls, of any requesters, is a list of changes.
abbrev pub apply_all : List Change → Case → Case
apply_all [] c = c
apply_all (x ∷ xs) c = apply_all xs (apply x c).1
