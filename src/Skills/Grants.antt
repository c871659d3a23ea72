-- ===== src/Skills/Grants.antt =====
-- demo_agent/skill_runtime.py, `ToolGrant` and `parse_grants`: the actions that a skill is approved for
-- in advance. Python's `str.casefold` is an argument.
pub mod Checked
use ess_mcp.Prelude.{
  ℕ, ◌≤◌, Bool, true, false, not, ◌&&◌, ◌||◌, Option, none, some, List, [], ◌∷◌, ◌++◌, map, leb,
  ltb, ◌==◌, if◌then◌else◌, length, all, any, Text, Unicode, codes, text_eq, member,
}
use mathlib.Core.List.{reverse}
use ess_mcp.Compliance.Identity.{strip, fold_case}
use ess_mcp.Approvals.Json.{Json, string, Key, text_key, Fields, end, field}
use ess_mcp.Skills.Paths.{is_alphanumeric, is_name_char, split}

pub record ToolGrant : Type 0 where
  pub server : Text
  pub tool : Text
  pub argument : Option Text
  pub values : List Text

-- `args.get(name)`
unfoldable pub field_at : Text → Fields → Option Json
field_at name end = none
field_at name (field k v fs) = elim k [
  | text_key t ↦ if text_eq t name then some v else field_at name fs
  | _ ↦ field_at name fs
]

abbrev pub is_value_of : (Text → Text) → Unicode → List Text → Option Json → Bool
is_value_of casefold u values (some (string t)) = member (casefold (strip u t)) values
is_value_of casefold u values _ = false

-- `ToolGrant.matches`
unfoldable pub matches : (Text → Text) → Unicode → ToolGrant → Text → Text → Fields → Bool
unfolding field_at
matches casefold u g server tool args =
    text_eq server g.server && text_eq tool g.tool && (elim (g.argument) [
      | none ↦ true
      | some name ↦ is_value_of casefold u g.values (field_at name args)
    ])

-- what follows a prefix
unfoldable pub after_prefix : Text → Text → Option Text
after_prefix [] s = some s
after_prefix (c ∷ p) [] = none
after_prefix (c ∷ p) (d ∷ s) = let rest = after_prefix p s in if c == d then rest else none

read_words : List Text
read_words =
    codes "get"
    ∷ codes "list"
    ∷ codes "search"
    ∷ codes "find"
    ∷ codes "lookup"
    ∷ codes "read"
    ∷ codes "check"
    ∷ []

-- an underscore, or what `$` matches
ends_word : Option Text → Bool
ends_word none = false
ends_word (some []) = true
ends_word (some (c ∷ s)) = (c == b'_') || ((c == 10) && text_eq s [])

-- `READ_ONLY_TOOL.match`
unfoldable pub is_read_only : Text → Bool
unfolding after_prefix read_words ends_word fold_case
is_read_only tool = any (λ w. ends_word (after_prefix w (fold_case tool))) read_words

pub systems : List Text
systems = codes "workday" ∷ codes "servicenow" ∷ codes "coupa" ∷ codes "salesforce" ∷ []

abbrev is_word_char : ℕ → Bool
is_word_char c = is_alphanumeric c || (c == b'_')

-- the word characters that a text begins with, and the rest
pub word_run : Text → Text × Text
word_run [] = ([], [])
word_run (c ∷ s) =
    let (w, rest) = word_run s in if is_word_char c then (c ∷ w, rest) else ([], c ∷ s)

unfoldable pub is_word : Text → Bool
is_word w = leb 1 (length w) && leb (length w) 64

-- the text between the equality sign and a closing bracket at the end
before_bracket : Text → Option Text
before_bracket [] = none
before_bracket (c ∷ []) = if c == b')' then some [] else none
before_bracket (c ∷ d ∷ s) = elim (before_bracket (d ∷ s)) [
  | none ↦ none
  | some inside ↦ some (c ∷ inside)
]

abbrev is_value : Text → Bool
is_value v = leb 1 (length v) && leb (length v) 64 && all is_name_char v

-- the values of a limit, up to eight
values_of : Text → Option (List Text)
unfolding split before_bracket
values_of s = elim (before_bracket s) [
  | none ↦ none
  | some inside ↦
      let parts = split b'|' inside in
      if leb (length parts) 8 && all is_value parts then some parts else none
]

-- the limit of a grant, behind the name of its tool
pub limit_of : Text → Option (Option Text × List Text)
unfolding word_run is_word values_of
limit_of [] = some (none, [])
limit_of (c ∷ s) =
    let (name, rest) = word_run s in
    if (c == b'(') && is_word name
    then (elim rest [
      | [] ↦ none
      | d ∷ text ↦
          if d == b'='
          then (elim (values_of text) [ none ↦ none | some vs ↦ some (some name, vs) ])
          else none
    ])
    else none

-- the match behind the name of the server
pub grant_after : Text → Text → Option ToolGrant
unfolding word_run is_word limit_of
grant_after server s =
    let (tool, rest) = word_run s in
    if is_word tool
    then (elim (limit_of rest) [
      | none ↦ none
      | some (name, vs) ↦
          some (record { server = server; tool = tool; argument = name; values = vs })
    ])
    else none

-- the first of the servers that the entry names
pub first_system : List Text → Text → Option ToolGrant
unfolding after_prefix grant_after
first_system [] s = none
first_system (server ∷ servers) s = elim (after_prefix (server ++ codes "__") s) [
  | none ↦ first_system servers s
  | some rest ↦ grant_after server rest
]

-- `_GRANT.fullmatch`, with the values as they are written
unfoldable pub grant_of : Text → Option ToolGrant
unfolding first_system systems
grant_of token = first_system systems token

-- `text.split()`
words_onto : Bool → Text → List Text → List Text
words_onto true c parts = [] ∷ parts
words_onto false c [] = c ∷ []
words_onto false c (w ∷ parts) = (c ++ w) ∷ parts

split_spaces : Unicode → Text → List Text
unfolding words_onto
split_spaces u [] = [] ∷ []
split_spaces u (c ∷ s) = words_onto (u.space c) (c ∷ []) (split_spaces u s)

keep_nonempty : List Text → List Text
keep_nonempty [] = []
keep_nonempty ([] ∷ parts) = keep_nonempty parts
keep_nonempty ((c ∷ s) ∷ parts) = (c ∷ s) ∷ keep_nonempty parts

unfoldable pub words : Unicode → Text → List Text
unfolding split_spaces keep_nonempty
words u s = keep_nonempty (split_spaces u s)

-- the loop of `parse_grants`; an entry that is no grant raises a ValueError
unfoldable pub grants_of : (Text → Text) → List Text → Option (List ToolGrant)
grants_of casefold [] = some []
grants_of casefold (token ∷ tokens) = elim (grant_of token) [
  | none ↦ none
  | some g ↦ elim (grants_of casefold tokens) [
    | none ↦ none
    | some gs ↦
        some (if is_read_only g.tool then gs else record g { values = map casefold g.values } ∷ gs)
  ]
]

-- `parse_grants`, of a text
unfoldable pub parse_grants : (Text → Text) → Unicode → Text → Option (List ToolGrant)
unfolding grants_of words
parse_grants casefold u text =
    if leb (length text) 2000 then grants_of casefold (words u text) else none
