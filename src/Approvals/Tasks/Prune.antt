-- ===== src/Approvals/Tasks/Prune.antt =====
-- Making room: only requests that are settled go.
use ess_mcp.Prelude.{
  ℕ, zero, suc, ◌+◌, ◌-◌, ◌≡◌, Bool, true, false, Option, none, some, List, [], ◌∷◌, arith,
  Bool-cases, inl, inr, Text, text_eq, text_eq_iff, lookup, remove, lookup-remove, IsDict,
  remove-IsDict, take, length,
}
use ess_mcp.Approvals.Record.{Request, is_settled, max_records}
use ess_mcp.Approvals.Tasks.{Tasks, older, insert_sorted, removable, remove_all, prune}
use ess_mcp.Approvals.Tasks.Lookups.{Advances, Advances-refl, Advances-trans}

abbrev AllOf : (Text → Bool) → List (ℕ × Text) → Type 0
AllOf p [] = Unit {0}
AllOf p ((at, k) ∷ ks) = (p k ≡ true) × AllOf p ks

AllOf-weaken :
    (p q : Text → Bool) (ks : List (ℕ × Text))
    → ((k : Text) → p k ≡ true → q k ≡ true)
    → AllOf p ks
    → AllOf q ks
AllOf-weaken p q [] f h = tt
AllOf-weaken p q ((at, k) ∷ ks) f h = (f k h.0, AllOf-weaken p q ks f h.1)

AllOf-take : (p : Text → Bool) (n : ℕ) (ks : List (ℕ × Text)) → AllOf p ks → AllOf p (take n ks)
AllOf-take p zero ks h = tt
AllOf-take p (suc n) [] h = tt
AllOf-take p (suc n) ((at, k) ∷ ks) h = (h.0, AllOf-take p n ks h.1)

AllOf-insert_sorted :
    (p : Text → Bool) (x : ℕ × Text) (ks : List (ℕ × Text))
    → p x.1 ≡ true
    → AllOf p ks
    → AllOf p (insert_sorted x ks)
unfolding insert_sorted
AllOf-insert_sorted p (at, k) [] h hs = (h, tt)
AllOf-insert_sorted p (at, k) ((at', j) ∷ ks) h hs = elim (Bool-cases (older (at', j) (at, k))) [
  | inl before ↦ rw before (hs.0, AllOf-insert_sorted p (at, k) ks h hs.1)
  | inr after ↦ rw after (h, hs)
]

abbrev settled_in : Tasks → Text → Bool
settled_in ts k = elim (lookup k ts) [ none ↦ false | some r ↦ is_settled r ]

-- settled, or gone
abbrev done_in : Tasks → Text → Bool
done_in ts k = elim (lookup k ts) [ none ↦ true | some r ↦ is_settled r ]

removable-AllOf : (ts : Tasks) → IsDict ts → AllOf (settled_in ts) (removable ts)
unfolding removable lookup
removable-AllOf [] h = tt
removable-AllOf ((id, r) ∷ ts) h =
    let wider =
      AllOf-weaken (settled_in ts) (settled_in ((id, r) ∷ ts)) (removable ts)
        (λ k s. ground (arith, h.0, text_eq_iff id k, s)) (removable-AllOf ts h.1) in
    elim (Bool-cases (is_settled r)) [
      | inl settled ↦ rw settled (
          AllOf-insert_sorted (settled_in ((id, r) ∷ ts)) (r.at, id) (removable ts)
            (ground (arith, settled, text_eq_iff id id)) wider)
      | inr live ↦ rw live wider
    ]

done-Advances :
    (o : Option Request) → elim o [ none ↦ true | some r ↦ is_settled r ] ≡ true → Advances o none
unfolding is_settled
done-Advances none h = Advances-refl none
done-Advances (some r) h = record { onward = ground arith; kept = ground (arith, h) }

remove-Advances :
    (id k : Text) (ts : Tasks)
    → done_in ts k ≡ true
    → Advances (lookup id ts) (lookup id (remove k ts))
remove-Advances id k ts h = elim (Bool-cases (text_eq k id)) [
  | inl same ↦
      rw (lookup-remove k id ts, same, ← (text_eq_iff k id).0 same) (done-Advances (lookup k ts) h)
  | inr other ↦ rw (lookup-remove k id ts, other) (Advances-refl (lookup id ts))
]

remove_all-Advances :
    (id : Text) (ks : List (ℕ × Text)) (ts : Tasks)
    → AllOf (done_in ts) ks
    → Advances (lookup id ts) (lookup id (remove_all ks ts))
unfolding remove_all
remove_all-Advances id [] ts h = Advances-refl (lookup id ts)
remove_all-Advances id ((at, k) ∷ ks) ts h =
    Advances-trans (lookup id ts) (lookup id (remove k ts))
      (lookup id (remove_all ks (remove k ts))) (remove-Advances id k ts h.0)
      (remove_all-Advances id ks (remove k ts) (
        AllOf-weaken (done_in ts) (done_in (remove k ts)) ks
          (λ j s. ground (arith, lookup-remove k j ts, s)) h.1))

pub prune-Advances :
    (id : Text) (ts : Tasks) → IsDict ts → Advances (lookup id ts) (lookup id (prune ts))
unfolding prune
prune-Advances id ts h =
    remove_all-Advances id (take (length ts + 1 - max_records) (removable ts)) ts (
      AllOf-take (done_in ts) (length ts + 1 - max_records) (removable ts) (
        AllOf-weaken (settled_in ts) (done_in ts) (removable ts) (λ k s. ground (arith, s))
          (removable-AllOf ts h)))

remove_all-IsDict : (ks : List (ℕ × Text)) (ts : Tasks) → IsDict ts → IsDict (remove_all ks ts)
unfolding remove_all
remove_all-IsDict [] ts h = h
remove_all-IsDict ((at, k) ∷ ks) ts h = remove_all-IsDict ks (remove k ts) (remove-IsDict k ts h)

pub prune-IsDict : (ts : Tasks) → IsDict ts → IsDict (prune ts)
unfolding prune
prune-IsDict ts h = remove_all-IsDict (take (length ts + 1 - max_records) (removable ts)) ts h
