-- ===== src/Compliance/Record/Forms.antt =====
-- The form of a case record in each status, and who may change it.
use ess_mcp.Prelude.{
  ◌≡◌, ◌≢◌, refl, sym, true, false, Option, none, some, List, [], ◌∷◌, arith, Bool-cases, inl, inr,
  subst, &&-eq-true,
}
use ess_mcp.Compliance.Identity.{Authority, same_authority, same_authority_iff}
use ess_mcp.Compliance.Record.{
  Status, creating, investigating, answer_delivery_pending, awaiting_confirmation, closing, closed,
  write_outcome_unknown, CaseRecord, Case, same_status, holds, change_if, claim_receive,
  complete_receive, claim_answer, complete_answer, claim_close, complete_close, mark_uncertain,
  Change, receive_claim, receive_complete, answer_claim, answer_complete, close_claim,
  close_complete, receive_uncertain, answer_uncertain, close_uncertain, apply, apply_all,
}

abbrev pub IsSome : {A : Type 0} → Option A → Type 0
IsSome none = ⊥
IsSome (some a) = Unit

-- What a record has in each status; of an unknown outcome nothing is required.
abbrev pub FormOf : Status → CaseRecord → Type 0
FormOf creating r = Unit
FormOf investigating r = IsSome r.case_id × IsSome r.case_number
FormOf answer_delivery_pending r = IsSome r.case_id × IsSome r.case_number
FormOf awaiting_confirmation r =
    IsSome r.case_id × IsSome r.case_number × IsSome r.evidence_ids × IsSome r.answer_message_id
FormOf closing r =
    IsSome r.case_id
    × IsSome r.case_number
    × IsSome r.evidence_ids
    × IsSome r.answer_message_id
    × IsSome r.confirmation
FormOf closed r =
    IsSome r.case_id
    × IsSome r.case_number
    × IsSome r.evidence_ids
    × IsSome r.answer_message_id
    × IsSome r.confirmation
FormOf write_outcome_unknown r = Unit

abbrev pub IsWellFormed : Case → Type 0
IsWellFormed none = Unit
IsWellFormed (some r) = FormOf r.status r

same_status→eq : (s t : Status) → same_status s t ≡ true → s ≡ t
unfolding same_status
same_status→eq creating t h = ground arith
same_status→eq investigating t h = ground arith
same_status→eq answer_delivery_pending t h = ground arith
same_status→eq awaiting_confirmation t h = ground arith
same_status→eq closing t h = ground arith
same_status→eq closed t h = ground arith
same_status→eq write_outcome_unknown t h = ground arith

change_if-IsWellFormed :
    (a : Authority) (s : Status) (f : CaseRecord → CaseRecord) (c : Case)
    → ((r : CaseRecord) → FormOf s r → FormOf (f r).status (f r))
    → IsWellFormed c
    → IsWellFormed (change_if a s f c).1
unfolding change_if holds
change_if-IsWellFormed a s f none h w = tt
change_if-IsWellFormed a s f (some r) h w = elim (Bool-cases (holds a s r)) [
  | inl made ↦
      let same : r.status ≡ s = same_status→eq r.status s (&&-eq-true _ _ made).1 in
      rw (made, change_if) (h r (subst (λ t. FormOf t r) same w))
  | inr kept ↦ rw (kept, change_if) w
]

claim_receive-IsWellFormed :
    (a : Authority) (c : Case) → IsWellFormed c → IsWellFormed (claim_receive a c).1
unfolding claim_receive
claim_receive-IsWellFormed a none w = tt
claim_receive-IsWellFormed a (some r) w = w

apply-IsWellFormed : (x : Change) (c : Case) → IsWellFormed c → IsWellFormed (apply x c).1
unfolding apply complete_receive claim_answer complete_answer claim_close complete_close
    mark_uncertain
apply-IsWellFormed (receive_claim a) c w = claim_receive-IsWellFormed a c w
apply-IsWellFormed (receive_complete a i n) c w =
    change_if-IsWellFormed a creating _ c (λ r h. (tt, tt)) w
apply-IsWellFormed (receive_uncertain a) c w = change_if-IsWellFormed a creating _ c (λ r h. tt) w
apply-IsWellFormed (answer_claim a) c w = change_if-IsWellFormed a investigating _ c (λ r h. h) w
apply-IsWellFormed (answer_complete a e m) c w =
    change_if-IsWellFormed a answer_delivery_pending _ c (λ r h. (h.0, h.1, tt, tt)) w
apply-IsWellFormed (answer_uncertain a) c w =
    change_if-IsWellFormed a answer_delivery_pending _ c (λ r h. tt) w
apply-IsWellFormed (close_claim a) c w =
    change_if-IsWellFormed a awaiting_confirmation _ c (λ r h. (h.0, h.1, h.2, h.3, tt)) w
apply-IsWellFormed (close_complete a) c w = change_if-IsWellFormed a closing _ c (λ r h. h) w
apply-IsWellFormed (close_uncertain a) c w = change_if-IsWellFormed a closing _ c (λ r h. tt) w

-- Whatever calls write, and in whatever order, a record has what its status promises: the references
-- of Salesforce from the investigation on, the evidence and the delivered message from the answer on,
-- the confirmation from the closure on.
pub apply_all-IsWellFormed :
    (xs : List Change) (c : Case) → IsWellFormed c → IsWellFormed (apply_all xs c)
apply_all-IsWellFormed [] c w = w
apply_all-IsWellFormed (x ∷ xs) c w =
    apply_all-IsWellFormed xs (apply x c).1 (apply-IsWellFormed x c w)

-- whose call writes it
abbrev pub author : Change → Authority
author (receive_claim a) = a
author (receive_complete a i n) = a
author (receive_uncertain a) = a
author (answer_claim a) = a
author (answer_complete a e m) = a
author (answer_uncertain a) = a
author (close_claim a) = a
author (close_complete a) = a
author (close_uncertain a) = a

change_if_other :
    (a : Authority) (s : Status) (f : CaseRecord → CaseRecord) (r : CaseRecord)
    → a ≢ r.authority
    → change_if a s f (some r) ≡ (false, some r)
unfolding change_if holds
change_if_other a s f r other = elim (Bool-cases (same_authority r.authority a)) [
  | inl same ↦ absurd (other (sym ((same_authority_iff r.authority a).0 same)))
  | inr differs ↦ rw differs
]

apply_other :
    (x : Change) (r : CaseRecord) → author x ≢ r.authority → apply x (some r) ≡ (false, some r)
unfolding apply claim_receive complete_receive claim_answer complete_answer claim_close
    complete_close mark_uncertain
apply_other (receive_claim a) r h = refl
apply_other (receive_complete a i n) r h = change_if_other a creating _ r h
apply_other (receive_uncertain a) r h = change_if_other a creating _ r h
apply_other (answer_claim a) r h = change_if_other a investigating _ r h
apply_other (answer_complete a e m) r h = change_if_other a answer_delivery_pending _ r h
apply_other (answer_uncertain a) r h = change_if_other a answer_delivery_pending _ r h
apply_other (close_claim a) r h = change_if_other a awaiting_confirmation _ r h
apply_other (close_complete a) r h = change_if_other a closing _ r h
apply_other (close_uncertain a) r h = change_if_other a closing _ r h

abbrev pub AllOthers : Authority → List Change → Type 0
AllOthers a [] = Unit
AllOthers a (x ∷ xs) = (author x ≢ a) × AllOthers a xs

-- Calls made for other requesters, managers, instances, tenants, messages or conversations leave the
-- case as it is.
pub others_unchanged :
    (xs : List Change) (r : CaseRecord) → AllOthers r.authority xs → apply_all xs (some r) ≡ some r
others_unchanged [] r h = refl
others_unchanged (x ∷ xs) r h = rw (apply_other x r h.0) (others_unchanged xs r h.1)
