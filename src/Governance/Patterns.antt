-- ===== src/Governance/Patterns.antt =====
-- The patterns of the deny-list of demo_agent/governance.py: Python's `fnmatch.fnmatchcase`, with its
-- star, its question mark and its classes in brackets.
use ess_mcp.Prelude.{
  ℕ, zero, suc, ◌+◌, Bool, true, false, not, ◌&&◌, ◌||◌, Option, none, some, List, [], ◌∷◌, leb,
  ◌==◌, if◌then◌else◌, Text, ◌≡◌, refl, codes,
}

pub data Item : Type 0 where
  star : Item
  any_one : Item
  literal : ℕ → Item
  class : Bool → List (ℕ × ℕ) → Item

in_spans : List (ℕ × ℕ) → ℕ → Bool
in_spans [] c = false
in_spans ((lo, hi) ∷ spans) c = (leb lo c && leb c hi) || in_spans spans c

-- whether an item other than a star is met by the character
accepts : Item → ℕ → Bool
unfolding in_spans
accepts star c = false
accepts any_one c = true
accepts (literal d) c = c == d
accepts (class true spans) c = not (in_spans spans c)
accepts (class false spans) c = in_spans spans c

-- the characters of a class; a range that runs backwards is empty
spans_of : Text → List (ℕ × ℕ)
spans_of [] = []
spans_of (a ∷ []) = (a, a) ∷ []
spans_of (a ∷ b ∷ []) = (a, a) ∷ (b, b) ∷ []
spans_of (a ∷ d ∷ b ∷ rest) =
    let range = spans_of rest in
    let single = spans_of (d ∷ b ∷ rest) in if d == b'-' then (a, b) ∷ range else (a, a) ∷ single

-- what stands before the closing bracket, and how many characters that is
up_to_bracket : Text → Option (Text × ℕ)
up_to_bracket [] = none
up_to_bracket (c ∷ s) =
    let more = up_to_bracket s in
    if c == b']'
    then some ([], 0)
    else elim more [ none ↦ none | some (inside, n) ↦ some (c ∷ inside, suc n) ]

-- The class behind an opening bracket, with the number of characters that it takes. Its first
-- character may be a closing bracket.
class_from : Bool → ℕ → Text → Option (Item × ℕ)
unfolding spans_of up_to_bracket
class_from negated skipped [] = none
class_from negated skipped (c ∷ s) = elim (up_to_bracket s) [
  | none ↦ none
  | some (inside, n) ↦ some (class negated (spans_of (c ∷ inside)), skipped + n + 2)
]

class_at : Text → Option (Item × ℕ)
unfolding class_from
class_at [] = none
class_at (c ∷ s) = if c == b'!' then class_from true 1 s else class_from false 0 (c ∷ s)

-- the items of a pattern; the number counts characters that a class has taken
items_from : ℕ → Text → List Item
unfolding class_at
items_from k [] = []
items_from (suc k) (c ∷ s) = items_from k s
items_from zero (c ∷ s) = elim (if c == b'[' then class_at s else none) [
  | some (item, used) ↦ item ∷ items_from used s
  | none ↦
      (if c == b'*' then star else if c == b'?' then any_one else literal c) ∷ items_from zero s
]

-- some end of the text is accepted
some_end : (Text → Bool) → Text → Bool
some_end meets [] = meets []
some_end meets (c ∷ s) = meets (c ∷ s) || some_end meets s

is_match : List Item → Text → Bool
unfolding accepts some_end
is_match [] [] = true
is_match [] (c ∷ s) = false
is_match (star ∷ p) s = some_end (is_match p) s
is_match (i ∷ p) [] = false
is_match (i ∷ p) (c ∷ s) = accepts i c && is_match p s

-- `fnmatch.fnmatchcase(name, pattern)`
unfoldable pub fnmatchcase : Text → Text → Bool
unfolding is_match items_from
fnmatchcase name pattern = is_match (items_from 0 pattern) name

matches_star : fnmatchcase (codes "salesforce.update_case") (codes "salesforce.*") ≡ true
unfolding fnmatchcase
matches_star = refl

matches_class : fnmatchcase (codes "b]") (codes "[!a-a-]]") ≡ true
unfolding fnmatchcase
matches_class = refl

no_class : fnmatchcase (codes "[x") (codes "[?") ≡ true
unfolding fnmatchcase
no_class = refl
