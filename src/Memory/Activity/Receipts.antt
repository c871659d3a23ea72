-- ===== src/Memory/Activity/Receipts.antt =====
-- The receipts of `claim_activity`: how long a claim is remembered, and that the list stays valid.
use ess_mcp.Prelude.{
  ℕ, zero, suc, ◌-◌, ◌≤◌, ◌≡◌, refl, true, false, ◌||◌, List, [], ◌∷◌, ◌++◌, arith, length, all,
  drop, last, length-last-le, all-append, all-last, Text, Unicode, text_eq_iff, member, Bool-cases,
  inl, inr,
}
use ess_mcp.Memory.State.{State, identifier_is_valid, max_seen_ids, distinct}
use ess_mcp.Memory.Activity.{remember_activity}

member-append : (a : Text) (xs ys : List Text) → member a (xs ++ ys) ≡ (member a xs || member a ys)
unfolding member
member-append a [] ys = refl
member-append a (x ∷ xs) ys = ground (arith, member-append a xs ys)

member-drop :
    (n : ℕ) (a : Text) (xs : List Text) → member a xs ≡ false → member a (drop n xs) ≡ false
unfolding member
member-drop zero a xs h = h
member-drop (suc n) a [] h = refl
member-drop (suc n) a (x ∷ xs) h = member-drop n a xs (ground arith)

distinct-drop : (n : ℕ) (xs : List Text) → distinct xs ≡ true → distinct (drop n xs) ≡ true
unfolding distinct
distinct-drop zero xs h = h
distinct-drop (suc n) [] h = refl
distinct-drop (suc n) (x ∷ xs) h = distinct-drop n xs (ground arith)

distinct-last : (n : ℕ) (xs : List Text) → distinct xs ≡ true → distinct (last n xs) ≡ true
unfolding last
distinct-last n xs h = distinct-drop (length xs - n) xs h

distinct-snoc :
    (a : Text) (xs : List Text)
    → member a xs ≡ false
    → distinct xs ≡ true
    → distinct (xs ++ a ∷ []) ≡ true
unfolding distinct member
distinct-snoc a [] h d = refl
distinct-snoc a (x ∷ xs) h d =
    ground
      (arith, distinct-snoc a xs, member-append x xs (a ∷ []), text_eq_iff x a, text_eq_iff a x)

-- What `_validate_state` asks of the receipts.
pub record AreReceipts (u : Unicode) (seen : List Text) : Type 0 where
  pub valid : all (identifier_is_valid u) seen ≡ true
  pub few : length seen ≤ max_seen_ids
  pub once : distinct seen ≡ true

module _ {T : Type 0} where
  -- Remembering a valid identifier keeps the receipts valid, few and without duplicates.
  pub remember_activity-AreReceipts :
      (u : Unicode) (activity : Text) (s : State T)
      → identifier_is_valid u activity ≡ true
      → AreReceipts u s.seen
      → AreReceipts u (remember_activity activity s).seen
  unfolding remember_activity
  remember_activity-AreReceipts u activity s v r = elim (Bool-cases (member activity s.seen)) [
    | inl old ↦ rw old r
    | inr new ↦ rw new (record {
      valid =
          all-last _ max_seen_ids (s.seen ++ activity ∷ [])
            (ground (arith, all-append (identifier_is_valid u) s.seen (activity ∷ [])));
      few = length-last-le max_seen_ids (s.seen ++ activity ∷ []);
      once =
          distinct-last max_seen_ids (s.seen ++ activity ∷ [])
            (distinct-snoc activity s.seen new r.once);
    })
  ]

-- `a` stands in `xs` with at most `k` entries behind it.
record IsRecent (a : Text) (k : ℕ) (xs : List Text) : Type 0 where
  older : List Text
  newer : List Text
  split : xs ≡ older ++ a ∷ newer
  near : length newer ≤ k

module _ {T : Type 0} where
  abbrev pub remember_all : List Text → State T → State T
  remember_all [] s = s
  remember_all (a ∷ ids) s = remember_all ids (remember_activity a s)
