-- ===== src/Approvals/Identity.antt =====
-- demo_agent/tool_approvals.py: identifiers, the configured users, the verified actor, and the
-- commands of a person.
pub mod Exact
use ess_mcp.Prelude.{
  ℕ, zero, suc, ◌+◌, ◌≤◌, ◌≡◌, ◌↔◌, refl, Bool, true, false, not, ◌&&◌, ◌||◌, Option, none, some,
  List, [], ◌∷◌, ◌++◌, map, arith, ltb, leb, ◌==◌, if◌then◌else◌, length, any, all, drop, Text,
  Unicode, codes, nonblank, text_eq, member, lower, Result, ok, err, ◌>>=◌,
}
use ess_mcp.Memory.State.{ChatScope}
use ess_mcp.Compliance.Identity.{is_guid}

abbrev pub is_hex : ℕ → Bool
is_hex c = (leb b'0' c && leb c b'9') || (leb b'a' c && leb c b'f') || (leb b'A' c && leb c b'F')

-- `_guid`: the canonical text of a UUID that is not zero
unfoldable pub guid : Text → Option Text
guid value =
    if is_guid value && any (λ c. not (c == b'0') && not (c == b'-')) value
    then some (lower value)
    else none

abbrev pub guid_of : Option Text → Option Text
guid_of none = none
guid_of (some value) = guid value

-- `re.split(r"[,;]", raw)`: the part before the first separator, and the parts behind it
split_items : Text → Text × List Text
split_items [] = ([], [])
split_items (c ∷ s) =
    let (part, parts) = split_items s in
    if (c == b',') || (c == b';') then ([], part ∷ parts) else (c ∷ part, parts)

-- a word that has begun, put before the others
abbrev with_word : Text → List Text → List Text
with_word [] rest = rest
with_word (c ∷ word) rest = (c ∷ word) ∷ rest

-- `part.split()`: the word that has begun, if any, and the words behind it
words_from : Unicode → Text → Text × List Text
words_from u [] = ([], [])
words_from u (c ∷ s) =
    let (word, rest) = words_from u s in
    if u.space c then ([], with_word word rest) else (c ∷ word, rest)

words : Unicode → Text → List Text
unfolding words_from
words u s = let (word, rest) = words_from u s in with_word word rest

-- every word is the text of a UUID
guids : List Text → Option (List Text)
guids [] = some []
guids (w ∷ ws) = elim (guid w) [
  | none ↦ none
  | some g ↦ elim (guids ws) [ none ↦ none | some gs ↦ some (g ∷ gs) ]
]

parts_users : Unicode → List Text → Option (List Text)
unfolding words guids
parts_users u [] = some []
parts_users u (part ∷ parts) =
    if not (nonblank u part) then none else (elim (guids (words u part)) [
      | none ↦ none
      | some gs ↦ elim (parts_users u parts) [ none ↦ none | some rest ↦ some (gs ++ rest) ]
    ])

-- `_configured_users`, of the two environment variables in turn; `none` is its `ValueError`. A
-- blank variable grants nobody access.
unfoldable pub configured_users : Unicode → List Text → Option (List Text)
unfolding split_items parts_users
configured_users u [] = some []
configured_users u (raw ∷ raws) =
    elim (if nonblank u raw
      then (let (part, parts) = split_items raw in parts_users u (part ∷ parts))
      else some []) [
        | none ↦ none
        | some users ↦ elim (configured_users u raws) [
          | none ↦ none
          | some rest ↦ some (users ++ rest)
        ]
      ]

-- The authority fields of an actor; `none` where the dictionary lacks a text.
pub record Actor : Type 0 where
  pub aad_object_id : Option Text
  pub tenant_id : Option Text
  pub conversation_id : Option Text

pub record Identity : Type 0 where
  pub aad_object_id : Text
  pub tenant_id : Text
  pub conversation_id : Text

-- The tenant and the users that the gate was built with.
pub record Authorities : Type 0 where
  pub tenant : Text
  pub users : List Text

abbrev pub is_text : Option Text → Text → Bool
is_text none t = false
is_text (some s) t = text_eq s t

-- `_scope_allowed`
unfoldable pub scope_allowed : Authorities → ChatScope → Bool
scope_allowed g scope = is_text (guid scope.tenant_id) g.tenant

-- `_actor`
unfoldable pub actor : Authorities → ChatScope → Actor → Option Identity
unfolding scope_allowed
actor g scope a = elim (guid_of a.aad_object_id) [
  | none ↦ none
  | some user ↦
      if scope_allowed g scope
        && member user g.users
        && is_text (guid_of a.tenant_id) g.tenant
        && is_text a.conversation_id scope.conversation_id
      then some (record {
        aad_object_id = user;
        tenant_id = g.tenant;
        conversation_id = scope.conversation_id;
      })
      else none
]

pub data Action : Type 0 where
  approve reject : Action

-- What follows `prefix`.
unfoldable pub after_prefix : Text → Text → Option Text
after_prefix [] s = some s
after_prefix (c ∷ p) [] = none
after_prefix (c ∷ p) (d ∷ s) = let rest = after_prefix p s in if c == d then rest else none

abbrev pub request_id_of : Option Text → Option Text
request_id_of none = none
request_id_of (some s) = if (length s == 12) && all is_hex s then some (lower s) else none

-- `_COMMAND.fullmatch`, with the identifier in lower case
unfoldable pub parse_command : Text → Option (Action × Text)
unfolding after_prefix
parse_command text = elim (request_id_of (after_prefix (codes "approve ") text)) [
  | some id ↦ some (approve, id)
  | none ↦ elim (request_id_of (after_prefix (codes "reject ") text)) [
    | some id ↦ some (reject, id)
    | none ↦ none
  ]
]
