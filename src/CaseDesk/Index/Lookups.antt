-- ===== src/CaseDesk/Index/Lookups.antt =====
-- What `_index` keeps: no open case is evicted, and a name leads to its case.
use ess_mcp.Prelude.{
  ℕ, zero, suc, ◌-◌, ◌*◌, ◌≡◌, refl, ◌∙◌, true, false, not, none, some, List, [], ◌∷◌, arith, ltb,
  if◌then◌else◌, length, take, Text, text_eq, text_eq_iff, Dict, IsDict, lookup, insert, remove,
  lookup-insert, lookup-remove, insert-IsDict, Bool-cases, inl, inr, member,
}
use ess_mcp.Approvals.Tasks.{older, insert_sorted}
use ess_mcp.CaseDesk.File.{is_final, CaseFile}
use ess_mcp.CaseDesk.Index.{
  IndexRow, Index, index_row, evictable, remove_keys, evict, add_names, live_names, index_case,
  max_index,
}

-- No key of the list is `k`.
abbrev AllOther : Text → List (ℕ × Text) → Type 0
AllOther k [] = Unit {0}
AllOther k ((at, j) ∷ ks) = (text_eq j k ≡ false) × AllOther k ks

AllOther-take : (k : Text) (n : ℕ) (ks : List (ℕ × Text)) → AllOther k ks → AllOther k (take n ks)
AllOther-take k zero ks h = tt
AllOther-take k (suc n) [] h = tt
AllOther-take k (suc n) ((at, j) ∷ ks) h = (h.0, AllOther-take k n ks h.1)

AllOther-insert_sorted :
    (k : Text) (at : ℕ) (j : Text) (ks : List (ℕ × Text))
    → text_eq j k ≡ false
    → AllOther k ks
    → AllOther k (insert_sorted (at, j) ks)
unfolding insert_sorted
AllOther-insert_sorted k at j [] h hs = (h, tt)
AllOther-insert_sorted k at j ((b, i) ∷ ks) h hs = elim (Bool-cases (older (b, i) (at, j))) [
  | inl before ↦ rw before (hs.0, AllOther-insert_sorted k at j ks h hs.1)
  | inr behind ↦ rw behind (h, hs)
]

-- A key that is not listed, or is that of a case that is not final, is not evicted.
evictable-AllOther :
    (k : Text) (d : Dict IndexRow)
    → IsDict d
    → elim (lookup k d) [ none ↦ true | some r ↦ not (is_final r.status) ] ≡ true
    → AllOther k (evictable d)
unfolding evictable lookup
evictable-AllOther k [] dict h = tt
evictable-AllOther k ((j, r) ∷ d) dict h = elim (Bool-cases (text_eq j k)) [
  | inl same ↦
      let e : j ≡ k = (text_eq_iff j k).0 same in
      let gone : lookup k d ≡ none = rw (← e) dict.0 in
      let rest = evictable-AllOther k d dict.1 (rw gone refl) in
      let live : is_final r.status ≡ false = ground (arith, h, same) in rw live rest
  | inr other ↦
      let rest = evictable-AllOther k d dict.1 (ground (arith, h, other)) in
      elim (Bool-cases (is_final r.status)) [
        | inl final ↦ rw final (AllOther-insert_sorted k r.updated_at j (evictable d) other rest)
        | inr live ↦ rw live rest
      ]
]

remove_keys-lookup :
    {V : Type 0} (k : Text) (ks : List (ℕ × Text)) (d : Dict V)
    → AllOther k ks
    → lookup k (remove_keys ks d) ≡ lookup k d
unfolding remove_keys
remove_keys-lookup k [] d h = refl
remove_keys-lookup k ((at, j) ∷ ks) d h =
    remove_keys-lookup k ks (remove j d) h.1 ∙ ground (arith, lookup-remove j k d, h.0)

evict-lookup :
    (k : Text) (d : Dict IndexRow)
    → IsDict d
    → elim (lookup k d) [ none ↦ true | some r ↦ not (is_final r.status) ] ≡ true
    → lookup k (evict d) ≡ lookup k d
unfolding evict
evict-lookup k d dict h = elim (Bool-cases (ltb max_index (length d))) [
  | inl full ↦
      rw (full, evict)
        (remove_keys-lookup k (take (length d - max_index) (evictable d)) d
          (AllOther-take k (length d - max_index) (evictable d) (evictable-AllOther k d dict h)))
  | inr room ↦ rw (room, evict) refl
]

add_names-lookup :
    (key n : Text) (ns : List Text) (d : Dict Text)
    → lookup n (add_names key ns d) ≡ (if member n ns then some key else lookup n d)
unfolding add_names member
add_names-lookup key n [] d = refl
add_names-lookup key n (m ∷ ns) d = ground (
  arith,
  add_names-lookup key n ns (insert m key d),
  lookup-insert m n key d,
  text_eq_iff n m,
  text_eq_iff m n,
)

live_names-lookup :
    (cases : Dict IndexRow) (n k : Text) (r : IndexRow) (d : Dict Text)
    → lookup n d ≡ some k
    → lookup k cases ≡ some r
    → lookup n (live_names cases d) ≡ some k
unfolding live_names lookup
live_names-lookup cases n k r [] h there = absurd (ground (arith, h))
live_names-lookup cases n k r ((m, j) ∷ d) h there = elim (Bool-cases (text_eq m n)) [
  | inl same ↦ let e : j ≡ k = ground (arith, h, same) in rw (e, there, same) refl
  | inr other ↦
      ground (arith, other, live_names-lookup cases n k r d (ground (arith, h, other)) there)
]

-- After `_index` of a case that is not final, the case is listed with its row; every other case that is
-- not final is listed as before, however full the index is; and each of the given names leads to the
-- case.
pub index_case_keeps :
    (c : CaseFile) (names : List Text) (i : Index)
    → IsDict i.cases
    → is_final c.status ≡ false
    → (lookup c.key (index_case c names i).cases ≡ some (index_row c))
      × ((k : Text) (r : IndexRow)
          → text_eq c.key k ≡ false
          → lookup k i.cases ≡ some r
          → is_final r.status ≡ false
          → lookup k (index_case c names i).cases ≡ some r)
      × ((n : Text) → member n names ≡ true → lookup n (index_case c names i).aliases ≡ some c.key)
unfolding index_case index_row
index_case_keeps c names i dict live =
    let full = insert c.key (index_row c) i.cases in
    let full_dict = insert-IsDict c.key (index_row c) i.cases dict in
    let own : lookup c.key full ≡ some (index_row c) =
      ground (arith, lookup-insert c.key c.key (index_row c) i.cases, text_eq_iff c.key c.key) in
    let listed : lookup c.key (evict full) ≡ some (index_row c) =
      evict-lookup c.key full full_dict (rw (own, live) refl) ∙ own in
    (
      listed,
      λ k r other there open_still.
          let same : lookup k full ≡ some r =
            ground (arith, lookup-insert c.key k (index_row c) i.cases, other, there) in
          evict-lookup k full full_dict (rw (same, open_still) refl) ∙ same,
      λ n known.
          let named : lookup n (add_names c.key names i.aliases) ≡ some c.key =
            ground (arith, add_names-lookup c.key n names i.aliases, known) in
          elim (Bool-cases (ltb (max_index * 3) (length (add_names c.key names i.aliases)))) [
            | inl many ↦ rw many (
                live_names-lookup (evict full) n c.key (index_row c)
                  (add_names c.key names i.aliases) named listed)
            | inr few ↦ rw few named
          ],
    )
