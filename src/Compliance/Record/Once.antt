-- ===== src/Compliance/Record/Once.antt =====
-- The claims of a case over any interleaving of calls.
use ess_mcp.Prelude.{
  ℕ, suc, ◌+◌, ◌≤◌, ◌<◌, ◌≡◌, refl, Bool, true, false, ◌&&◌, none, some, List, [], ◌∷◌, arith,
  if◌then◌else◌, Bool-cases, inl, inr, &&-eq-true,
}
use ess_mcp.Compliance.Identity.{Authority}
use ess_mcp.Compliance.Record.{
  Status, creating, investigating, answer_delivery_pending, awaiting_confirmation, closing, closed,
  write_outcome_unknown, CaseRecord, Case, same_status, holds, change_if, claim_receive,
  complete_receive, claim_answer, complete_answer, claim_close, complete_close, mark_uncertain,
  Change, receive_claim, receive_complete, answer_claim, answer_complete, close_claim,
  close_complete, receive_uncertain, answer_uncertain, close_uncertain, apply, apply_all,
}

abbrev pub status_rank : Status → ℕ
status_rank creating = 1
status_rank investigating = 2
status_rank answer_delivery_pending = 3
status_rank awaiting_confirmation = 4
status_rank closing = 5
status_rank closed = 6
status_rank write_outcome_unknown = 7

abbrev pub rank : Case → ℕ
rank none = 0
rank (some r) = status_rank r.status

same_status-rank : (s t : Status) → same_status s t ≡ true → status_rank s ≡ status_rank t
unfolding same_status
same_status-rank creating t h = ground arith
same_status-rank investigating t h = ground arith
same_status-rank answer_delivery_pending t h = ground arith
same_status-rank awaiting_confirmation t h = ground arith
same_status-rank closing t h = ground arith
same_status-rank closed t h = ground arith
same_status-rank write_outcome_unknown t h = ground arith

-- A change that is made takes the case from the rank of its expected status to that of the new one.
change_if-rank :
    (a : Authority) (s : Status) (f : CaseRecord → CaseRecord) (c : Case) (n : ℕ)
    → ((r : CaseRecord) → status_rank (f r).status ≡ n)
    → ((change_if a s f c).0 ≡ true → (rank c ≡ status_rank s) × (rank (change_if a s f c).1 ≡ n))
      × ((change_if a s f c).0 ≡ false → (change_if a s f c).1 ≡ c)
unfolding change_if holds
change_if-rank a s f none n h = ground arith
change_if-rank a s f (some r) n h = ground (arith, same_status-rank r.status s, h r)

claim_receive-rank :
    (a : Authority) (c : Case)
    → ((claim_receive a c).0 ≡ true → (rank c ≡ 0) × (rank (claim_receive a c).1 ≡ 1))
      × ((claim_receive a c).0 ≡ false → (claim_receive a c).1 ≡ c)
unfolding claim_receive
claim_receive-rank a none = ground arith
claim_receive-rank a (some r) = ground arith

-- the ranks between which a change takes the case
abbrev from_rank : Change → ℕ
from_rank (receive_claim _) = 0
from_rank (receive_complete _ _ _) = 1
from_rank (receive_uncertain _) = 1
from_rank (answer_claim _) = 2
from_rank (answer_complete _ _ _) = 3
from_rank (answer_uncertain _) = 3
from_rank (close_claim _) = 4
from_rank (close_complete _) = 5
from_rank (close_uncertain _) = 5

abbrev to_rank : Change → ℕ
to_rank (receive_uncertain _) = 7
to_rank (answer_uncertain _) = 7
to_rank (close_uncertain _) = 7
to_rank x = suc (from_rank x)

apply-rank :
    (x : Change) (c : Case)
    → ((apply x c).0 ≡ true → (rank c ≡ from_rank x) × (rank (apply x c).1 ≡ to_rank x))
      × ((apply x c).0 ≡ false → (apply x c).1 ≡ c)
unfolding apply complete_receive claim_answer complete_answer claim_close complete_close
    mark_uncertain
apply-rank (receive_claim a) c = claim_receive-rank a c
apply-rank (receive_complete a i n) c = change_if-rank a creating _ c 2 (λ r. refl)
apply-rank (receive_uncertain a) c = change_if-rank a creating _ c 7 (λ r. refl)
apply-rank (answer_claim a) c = change_if-rank a investigating _ c 3 (λ r. refl)
apply-rank (answer_complete a e m) c = change_if-rank a answer_delivery_pending _ c 4 (λ r. refl)
apply-rank (answer_uncertain a) c = change_if-rank a answer_delivery_pending _ c 7 (λ r. refl)
apply-rank (close_claim a) c = change_if-rank a awaiting_confirmation _ c 5 (λ r. refl)
apply-rank (close_complete a) c = change_if-rank a closing _ c 6 (λ r. refl)
apply-rank (close_uncertain a) c = change_if-rank a closing _ c 7 (λ r. refl)

from_rank-lt : (x : Change) → from_rank x < to_rank x
from_rank-lt (receive_claim a) = omega arith
from_rank-lt (receive_uncertain a) = omega arith
from_rank-lt (answer_uncertain a) = omega arith
from_rank-lt (close_uncertain a) = omega arith
from_rank-lt x = omega arith

rank-apply-le : (x : Change) (c : Case) → rank c ≤ rank (apply x c).1
rank-apply-le x c = elim (Bool-cases (apply x c).0) [
  | inl won ↦ omega (arith, (apply-rank x c).0 won, from_rank-lt x)
  | inr lost ↦ rw ((apply-rank x c).1 lost) (omega arith)
]

-- How often a change of a kind is made.
abbrev pub wins : (Change → Bool) → List Change → Case → ℕ
wins p [] c = 0
wins p (x ∷ xs) c = (if p x && (apply x c).0 then 1 else 0) + wins p xs (apply x c).1

-- Every change of the kind starts at one rank.
abbrev StartsAt : (Change → Bool) → ℕ → Type 0
StartsAt p k = (x : Change) → p x ≡ true → from_rank x ≡ k

wins_past :
    (p : Change → Bool) (k : ℕ) (xs : List Change) (c : Case)
    → StartsAt p k
    → k < rank c
    → wins p xs c ≡ 0
wins_past p k [] c at h = refl
wins_past p k (x ∷ xs) c at h = elim (Bool-cases (p x && (apply x c).0)) [
  | inl won ↦
      let (here, did) = &&-eq-true (p x) (apply x c).0 won in
      absurd (omega (arith, at x here, (apply-rank x c).0 did))
  | inr lost ↦ rw lost (
      omega (
        arith,
        rank-apply-le x c,
        wins_past p k xs (apply x c).1 at (omega (arith, rank-apply-le x c)),
      ))
]

wins_once :
    (p : Change → Bool) (k : ℕ) (xs : List Change) (c : Case) → StartsAt p k → wins p xs c ≤ 1
wins_once p k [] c at = omega arith
wins_once p k (x ∷ xs) c at = elim (Bool-cases (p x && (apply x c).0)) [
  | inl won ↦
      let (here, did) = &&-eq-true (p x) (apply x c).0 won in
      rw won (
        omega (
          arith,
          wins_past p k xs (apply x c).1 at
              (omega (arith, at x here, (apply-rank x c).0 did, from_rank-lt x)),
        ))
  | inr lost ↦ rw lost (omega (arith, wins_once p k xs (apply x c).1 at))
]

abbrev pub is_receive_claim : Change → Bool
is_receive_claim (receive_claim a) = true
is_receive_claim _ = false

abbrev pub is_answer_claim : Change → Bool
is_answer_claim (answer_claim a) = true
is_answer_claim _ = false

abbrev pub is_close_claim : Change → Bool
is_close_claim (close_claim a) = true
is_close_claim _ = false

receive_starts : StartsAt is_receive_claim 0
receive_starts (receive_claim a) h = refl
receive_starts _ h = ground arith

answer_starts : StartsAt is_answer_claim 2
answer_starts (answer_claim a) h = refl
answer_starts _ h = ground arith

close_starts : StartsAt is_close_claim 4
close_starts (close_claim a) h = refl
close_starts _ h = ground arith

-- Over any sequence of writes of any calls, of any requesters, the claim that precedes the creation
-- of the case is won at most once; so are the claims before the delivery and before the closure.
pub claims_once :
    (xs : List Change) (c : Case)
    → (wins is_receive_claim xs c ≤ 1)
      × (wins is_answer_claim xs c ≤ 1)
      × (wins is_close_claim xs c ≤ 1)
claims_once xs c = (
  wins_once is_receive_claim 0 xs c receive_starts,
  wins_once is_answer_claim 2 xs c answer_starts,
  wins_once is_close_claim 4 xs c close_starts,
)

from_rank-lt-six : (x : Change) → from_rank x < 6
from_rank-lt-six (receive_claim a) = omega arith
from_rank-lt-six x = omega arith

-- A closed case, and one whose outcome is unknown, is never written again by any call.
pub final_unchanged : (xs : List Change) (c : Case) → 6 ≤ rank c → apply_all xs c ≡ c
final_unchanged [] c h = refl
final_unchanged (x ∷ xs) c h = elim (Bool-cases (apply x c).0) [
  | inl won ↦ absurd (omega (arith, (apply-rank x c).0 won, from_rank-lt-six x))
  | inr lost ↦ rw ((apply-rank x c).1 lost) (final_unchanged xs c h)
]
