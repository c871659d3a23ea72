-- ===== src/Approvals/Identity/Exact.antt =====
-- Who is an actor, and what is a command.
use ess_mcp.Prelude.{
  ◌≡◌, ◌↔◌, refl, true, Option, none, some, [], ◌∷◌, ◌++◌, arith, length, all, Text, codes,
  text_eq_iff, member, lower, Option-cases, inl, inr,
}
use ess_mcp.Memory.State.{ChatScope}
use ess_mcp.Approvals.Identity.{
  Authorities, Actor, Identity, scope_allowed, actor, guid, guid_of, is_text, is_hex, Action,
  approve, reject, after_prefix, request_id_of, parse_command,
}

after_prefix-append : (p s : Text) → after_prefix p (p ++ s) ≡ some s
unfolding after_prefix
after_prefix-append [] s = refl
after_prefix-append (c ∷ p) s = ground (arith, after_prefix-append p s)

after_prefix-some : (p s r : Text) → after_prefix p s ≡ some r → s ≡ p ++ r
unfolding after_prefix
after_prefix-some [] s r h = ground (arith, h)
after_prefix-some (c ∷ p) [] r h = ground (arith, h)
after_prefix-some (c ∷ p) (d ∷ s) r h = ground (arith, h, after_prefix-some p s r)

abbrev pub word_of : Action → Text
word_of approve = codes "approve "
word_of reject = codes "reject "

-- the word, one space, and twelve hexadecimal digits, which `id` is in lower case
abbrev pub IsCommand : Text → Action → Text → Type 0
IsCommand text a id =
    (digits : Text) × (text ≡ word_of a ++ digits)
    × (length digits ≡ 12)
    × (all is_hex digits ≡ true)
    × (id ≡ lower digits)

request_id_of-some :
    (o : Option Text) (id : Text)
    → request_id_of o ≡ some id
    → (digits : Text) × (o ≡ some digits)
      × (length digits ≡ 12)
      × (all is_hex digits ≡ true)
      × (id ≡ lower digits)
request_id_of-some none id h = absurd (ground (arith, h))
request_id_of-some (some digits) id h =
    (digits, refl, ground (arith, h), ground (arith, h), ground (arith, h))

IsCommand-after_prefix :
    (a : Action) (text id : Text)
    → request_id_of (after_prefix (word_of a) text) ≡ some id
    → IsCommand text a id
IsCommand-after_prefix a text id h =
    let (digits, after, n, hex, e) = request_id_of-some (after_prefix (word_of a) text) id h in
    (digits, after_prefix-some (word_of a) text digits after, n, hex, e)

abbrev command : Action → Text → Option (Action × Text)
command a id = some (a, id)

parse_command-IsCommand :
    (text : Text) (a : Action) (id : Text) → parse_command text ≡ some (a, id) → IsCommand text a id
unfolding parse_command
parse_command-IsCommand text a id h =
    elim (Option-cases (request_id_of (after_prefix (word_of approve) text))) [
      | inr (i, yes_so) ↦
          let e : command approve i ≡ command a id = ground (arith, h, yes_so) in
          let same : a ≡ approve = ground (arith, e) in
          rw same (IsCommand-after_prefix approve text id (ground (arith, yes_so, e)))
      | inl no_so ↦ elim (Option-cases (request_id_of (after_prefix (word_of reject) text))) [
        | inr (i, yes_so) ↦
            let e : command reject i ≡ command a id = ground (arith, h, no_so, yes_so) in
            let same : a ≡ reject = ground (arith, e) in
            rw same (IsCommand-after_prefix reject text id (ground (arith, yes_so, e)))
        | inl nor_so ↦ absurd (ground (arith, h, no_so, nor_so))
      ]
    ]

word-other : (digits : Text) → after_prefix (word_of approve) (word_of reject ++ digits) ≡ none
unfolding after_prefix
word-other digits = refl

IsCommand-parse_command :
    (text : Text) (a : Action) (id : Text) → IsCommand text a id → parse_command text ≡ some (a, id)
unfolding parse_command
IsCommand-parse_command text approve id (digits, e, n, hex, i) = rw e (ground (arith, n, hex, i))
IsCommand-parse_command text reject id (digits, e, n, hex, i) =
    rw e (ground (arith, n, hex, i, word-other digits))

-- A text is a command exactly if it is the word, one space and twelve hexadecimal digits, nothing before
-- and nothing behind; the request it names is the digits in lower case.
pub parse_command_iff :
    (text : Text) (a : Action) (id : Text)
    → (parse_command text ≡ some (a, id)) ↔ IsCommand text a id
parse_command_iff text a id = (parse_command-IsCommand text a id, IsCommand-parse_command text a id)

is_text_iff : (o : Option Text) (t : Text) → (is_text o t ≡ true) ↔ (o ≡ some t)
is_text_iff none t = ground arith
is_text_iff (some s) t = ground (arith, text_eq_iff s t)

-- An actor is accepted exactly if the scope and the actor are of the configured tenant, the user is
-- configured, and the conversation is that of the scope; the identity then holds these and nothing else.
pub actor_iff :
    (g : Authorities) (scope : ChatScope) (a : Actor) (who : Identity)
    → (actor g scope a ≡ some who) ↔ (
        (guid_of a.aad_object_id ≡ some who.aad_object_id)
        × (member who.aad_object_id g.users ≡ true)
        × (guid scope.tenant_id ≡ some g.tenant)
        × (guid_of a.tenant_id ≡ some g.tenant)
        × (a.conversation_id ≡ some scope.conversation_id)
        × (who.tenant_id ≡ g.tenant)
        × (who.conversation_id ≡ scope.conversation_id))
unfolding actor scope_allowed
actor_iff g scope a who = ground (
  arith,
  is_text_iff (guid scope.tenant_id) g.tenant,
  is_text_iff (guid_of a.tenant_id) g.tenant,
  is_text_iff a.conversation_id scope.conversation_id,
)
