-- ===== src/Approvals/Json/Size.antt =====
-- The budget and the depth bound the arguments.
use ess_mcp.Prelude.{
  ℕ, suc, ◌+◌, ◌-◌, ◌≤◌, ◌≡◌, arith, leb, if◌then◌else◌, Text, Bool-cases, inl, inr, ok,
  Result-cases,
}
use ess_mcp.Approvals.Json.{
  text_key, other_key, Json, null, bool, integer, float, string, array, object, other, Items, nil,
  item, Fields, end, field, Scanner, max_json_depth, credential_key, spend, spend_text, visit_text,
  enter, visit, visit_items, visit_fields,
}

-- how many values and keys a value holds
unfoldable mutual
  pub values : Json → ℕ
  values (array xs) = 1 + values_items xs
  values (object fs) = 1 + values_fields fs
  values null = 1
  values (bool b) = 1
  values (integer n) = 1
  values (float b n) = 1
  values (string t) = 1
  values other = 1

  pub values_items : Items → ℕ
  values_items nil = 0
  values_items (item x xs) = values x + values_items xs

  pub values_fields : Fields → ℕ
  values_fields end = 0
  values_fields (field k x fs) = 1 + values x + values_fields fs

abbrev larger : ℕ → ℕ → ℕ
larger a b = if leb a b then b else a

-- how deep the values stand in one another
unfoldable mutual
  pub nesting : Json → ℕ
  nesting (array xs) = nesting_items xs
  nesting (object fs) = nesting_fields fs
  nesting null = 0
  nesting (bool b) = 0
  nesting (integer n) = 0
  nesting (float b n) = 0
  nesting (string t) = 0
  nesting other = 0

  pub nesting_items : Items → ℕ
  nesting_items nil = 0
  nesting_items (item x xs) = larger (1 + nesting x) (nesting_items xs)

  pub nesting_fields : Fields → ℕ
  nesting_fields end = 0
  nesting_fields (field k x fs) = larger (1 + nesting x) (nesting_fields fs)

enter-ok :
    (depth budget left : ℕ)
    → enter depth budget ≡ ok left
    → (left + 1 ≤ budget) × (depth ≤ max_json_depth - 2)
unfolding enter spend
enter-ok depth budget left h = ground (arith, h)

visit_text-ok :
    (s : Scanner) (t : Text) (depth budget left : ℕ)
    → visit_text s t depth budget ≡ ok left
    → (left + 1 ≤ budget) × (depth ≤ max_json_depth - 2)
unfolding visit_text spend_text spend
visit_text-ok s t depth budget left h = ground (arith, h)

mutual
  unfolding visit visit_items visit_fields values values_items values_fields nesting nesting_items
      nesting_fields

  pub visit-fits :
      (s : Scanner) (x : Json) (depth budget left : ℕ)
      → visit s x depth budget ≡ ok left
      → (values x + left ≤ budget) × (depth + nesting x ≤ max_json_depth - 2)
  visit-fits s null depth budget left h = ground (arith, enter-ok depth budget left h)
  visit-fits s (bool b) depth budget left h = ground (arith, enter-ok depth budget left h)
  visit-fits s (integer n) depth budget left h = ground (arith, enter-ok depth budget left h)
  visit-fits s (float finite n) depth budget left h = elim (Result-cases (enter depth budget)) [
    | inl (rest, e) ↦ ground (arith, h, e, enter-ok depth budget rest e)
    | inr (reason, e) ↦ absurd (ground (arith, h, e))
  ]
  visit-fits s (string t) depth budget left h =
      ground (arith, visit_text-ok s t depth budget left h)
  visit-fits s (array xs) depth budget left h = elim (Result-cases (enter depth budget)) [
    | inl (rest, e) ↦ ground (
      arith,
      visit_items-fits s xs depth rest left (ground (arith, h, e)),
      enter-ok depth budget rest e,
    )
    | inr (reason, e) ↦ absurd (ground (arith, h, e))
  ]
  visit-fits s (object fs) depth budget left h = elim (Result-cases (enter depth budget)) [
    | inl (rest, e) ↦ ground (
      arith,
      visit_fields-fits s fs depth rest left (ground (arith, h, e)),
      enter-ok depth budget rest e,
    )
    | inr (reason, e) ↦ absurd (ground (arith, h, e))
  ]
  visit-fits s other depth budget left h = absurd (elim (Result-cases (enter depth budget)) [
    | inl (rest, e) ↦ ground (arith, h, e)
    | inr (reason, e) ↦ ground (arith, h, e)
  ])

  visit_items-fits :
      (s : Scanner) (xs : Items) (depth budget left : ℕ)
      → visit_items s xs (suc depth) budget ≡ ok left
      → (values_items xs + left ≤ budget)
        × ((depth ≤ max_json_depth - 2) → (depth + nesting_items xs ≤ max_json_depth - 2))
  visit_items-fits s nil depth budget left h = ground (arith, h)
  visit_items-fits s (item x xs) depth budget left h =
      elim (Result-cases (visit s x (suc depth) budget)) [
        | inl (rest, e) ↦ ground (
          arith,
          visit-fits s x (suc depth) budget rest e,
          visit_items-fits s xs depth rest left (ground (arith, h, e)),
        )
        | inr (reason, e) ↦ absurd (ground (arith, h, e))
      ]

  visit_fields-fits :
      (s : Scanner) (fs : Fields) (depth budget left : ℕ)
      → visit_fields s fs (suc depth) budget ≡ ok left
      → (values_fields fs + left ≤ budget)
        × ((depth ≤ max_json_depth - 2) → (depth + nesting_fields fs ≤ max_json_depth - 2))
  visit_fields-fits s end depth budget left h = ground (arith, h)
  visit_fields-fits s (field other_key x fs) depth budget left h = absurd (ground (arith, h))
  visit_fields-fits s (field (text_key k) x fs) depth budget left h =
      elim (Bool-cases (credential_key s k)) [
        | inl secret ↦ absurd (ground (arith, h, secret))
        | inr plain ↦ elim (Result-cases (visit_text s k (suc depth) budget)) [
          | inl (rest, e) ↦ elim (Result-cases (visit s x (suc depth) rest)) [
            | inl (after, f) ↦ ground (
              arith,
              visit_text-ok s k (suc depth) budget rest e,
              visit-fits s x (suc depth) rest after f,
              visit_fields-fits s fs depth after left (ground (arith, h, plain, e, f)),
            )
            | inr (reason, f) ↦ absurd (ground (arith, h, plain, e, f))
          ]
          | inr (reason, e) ↦ absurd (ground (arith, h, plain, e))
        ]
      ]
