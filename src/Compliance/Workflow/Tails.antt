-- ===== src/Compliance/Workflow/Tails.antt =====
-- The parts of the methods of `CaseWorkflow` after their claims: each writes changes of its own only, and
-- calls its effect at most once.
use ess_mcp.Prelude.{
  ℕ, ◌+◌, ◌≤◌, ◌≡◌, refl, Bool, true, false, ◌&&◌, Option, none, some, List, [], ◌∷◌, ◌++◌, arith,
  if◌then◌else◌, Bool-cases, inl, inr, Text, Unicode, codes, text_eq, lower,
}
use ess_mcp.Compliance.Identity.{CaseIdentity, authority, is_opaque_id, is_reference}
use ess_mcp.Compliance.Record.{
  Case, Change, receive_complete, answer_complete, close_complete, receive_uncertain,
  answer_uncertain, close_uncertain, apply, apply_all,
}
use ess_mcp.Compliance.Record.Once.{wins}
use ess_mcp.Memory.Saving.{Saving, saved, unread, refused, lost, store_update}
use ess_mcp.Compliance.Workflow.{
  Answer, returned, raised, Call, create_case, deliver, close_case, Ran, after_failure, register,
  create, record_answer, deliver_answer, record_closure, close_remotely, checked, or_empty,
}

abbrev pub count_calls : (Call → Bool) → List Call → ℕ
count_calls p [] = 0
count_calls p (x ∷ xs) = (if p x then 1 else 0) + count_calls p xs

abbrev pub is_create : Call → Bool
is_create create_case = true
is_create _ = false

abbrev pub is_deliver : Call → Bool
is_deliver deliver = true
is_deliver _ = false

abbrev pub is_closure : Call → Bool
is_closure (close_case id) = true
is_closure _ = false

pub apply_all-append :
    (xs ys : List Change) (c : Case) → apply_all (xs ++ ys) c ≡ apply_all ys (apply_all xs c)
apply_all-append [] ys c = refl
apply_all-append (x ∷ xs) ys c = apply_all-append xs ys (apply x c).1

pub wins-append :
    (p : Change → Bool) (xs ys : List Change) (c : Case)
    → wins p (xs ++ ys) c ≡ wins p xs c + wins p ys (apply_all xs c)
wins-append p [] ys c = omega arith
wins-append p (x ∷ xs) ys c = omega (arith, wins-append p xs ys (apply x c).1)

-- One write of the store, under each ending.
abbrev written : Saving → Change → List Change
written refused x = []
written unread x = []
written saved x = x ∷ []
written lost x = x ∷ []

pub store_update-written :
    (saving : Saving) (x : Change) (c : Case)
    → (store_update saving (apply x) c).1 ≡ apply_all (written saving x) c
unfolding store_update
store_update-written saved x c = refl
store_update-written refused x c = refl
store_update-written unread x c = refl
store_update-written lost x c = refl

-- A run after the claim: some changes, and at most one call of the effect.
pub record IsTail (effect : Call → Bool) (run : Ran) (c : Case) : Type 0 where
  pub changes : List Change
  pub writes : run.stored ≡ apply_all changes c
  pub once : count_calls effect run.calls ≤ 1

module _ (i : CaseIdentity) where
  register-IsTail :
      (id number : Text) (saving : Saving) (c : Case)
      → IsTail is_create (register i id number saving c) c
  unfolding register store_update apply
  register-IsTail id number saving c = record {
    changes = written saving (receive_complete (authority i) id number);
    writes = ground arith;
    once = ground arith;
  }

  pub create-IsTail :
      (answer : Answer (Option Text × Option Text)) (saving : Saving) (c : Case)
      → IsTail is_create (create i answer saving c) c
  unfolding create after_failure store_update apply
  create-IsTail raised saving c = record {
    changes = written saving (receive_uncertain (authority i));
    writes = ground arith;
    once = omega arith;
  }
  create-IsTail (returned (id, number)) saving c =
      elim (Bool-cases (checked is_reference id && checked is_reference number)) [
        | inl good ↦ rw (good, create) (register-IsTail (or_empty id) (or_empty number) saving c)
        | inr bad ↦
            rw (bad, create)
              (record {
                changes = written saving (receive_uncertain (authority i));
                writes = ground arith;
                once = omega arith;
              })
      ]

  record_answer-IsTail :
      (evidence : List Text) (message : Text) (saving : Saving) (c : Case)
      → IsTail is_deliver (record_answer i evidence message saving c) c
  unfolding record_answer store_update apply
  record_answer-IsTail evidence message saving c = record {
    changes = written saving (answer_complete (authority i) evidence message);
    writes = ground arith;
    once = ground arith;
  }

  pub deliver_answer-IsTail :
      (u : Unicode) (evidence : List Text) (answer : Answer (Option Text)) (saving : Saving)
      (c : Case)
      → IsTail is_deliver (deliver_answer i u evidence answer saving c) c
  unfolding deliver_answer after_failure store_update apply
  deliver_answer-IsTail u evidence raised saving c = record {
    changes = written saving (answer_uncertain (authority i));
    writes = ground arith;
    once = omega arith;
  }
  deliver_answer-IsTail u evidence (returned message) saving c =
      elim (Bool-cases (checked (is_opaque_id u) message)) [
        | inl good ↦
            rw (good, deliver_answer) (record_answer-IsTail evidence (or_empty message) saving c)
        | inr bad ↦
            rw (bad, deliver_answer)
              (record {
                changes = written saving (answer_uncertain (authority i));
                writes = ground arith;
                once = omega arith;
              })
      ]

  record_closure-IsTail :
      (id : Text) (saving : Saving) (c : Case) → IsTail is_closure (record_closure i id saving c) c
  unfolding record_closure store_update apply
  record_closure-IsTail id saving c = record {
    changes = written saving (close_complete (authority i));
    writes = ground arith;
    once = ground arith;
  }

  pub close_remotely-IsTail :
      (id : Option Text) (done : Answer (Unit {0})) (status : Answer Text) (saving : Saving)
      (c : Case)
      → IsTail is_closure (close_remotely i id done status saving c) c
  unfolding close_remotely after_failure store_update apply
  close_remotely-IsTail none done status saving c = record {
    changes = written saving (close_uncertain (authority i));
    writes = ground arith;
    once = omega arith;
  }
  close_remotely-IsTail (some id) raised status saving c = record {
    changes = written saving (close_uncertain (authority i));
    writes = ground arith;
    once = omega arith;
  }
  close_remotely-IsTail (some id) (returned _) raised saving c = record {
    changes = written saving (close_uncertain (authority i));
    writes = ground arith;
    once = omega arith;
  }
  close_remotely-IsTail (some id) (returned _) (returned status) saving c =
      elim (Bool-cases (text_eq (lower status) (codes "closed"))) [
        | inl good ↦ rw (good, close_remotely) (record_closure-IsTail id saving c)
        | inr bad ↦
            rw (bad, close_remotely)
              (record {
                changes = written saving (close_uncertain (authority i));
                writes = ground arith;
                once = omega arith;
              })
      ]
