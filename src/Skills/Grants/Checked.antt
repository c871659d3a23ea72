-- ===== src/Skills/Grants/Checked.antt =====
-- demo_agent/skill_runtime.py, `parse_grants`: what every grant of a skill is.
use ess_mcp.Prelude.{
  ◌≡◌, Bool, true, not, ◌&&◌, some, List, [], ◌∷◌, ◌++◌, arith, leb, length, all, Text, Unicode,
  codes, text_eq_refl, member, Option-cases, Bool-cases, inl, inr,
}
use ess_mcp.Skills.Grants.{
  ToolGrant, after_prefix, is_read_only, systems, is_word, grant_after, first_system, grant_of,
  words, grants_of, parse_grants,
}

-- an action of one of the servers, under a name that a tool can have, that is no read
abbrev pub is_write_of : List Text → ToolGrant → Bool
is_write_of servers g = member g.server servers && is_word g.tool && not (is_read_only g.tool)

grant_after-some :
    (server s : Text) (g : ToolGrant)
    → grant_after server s ≡ some g
    → (g.server ≡ server) × (is_word g.tool ≡ true)
unfolding grant_after
grant_after-some server s g h = ground (arith, h)

first_system-some :
    (servers : List Text) (s : Text) (g : ToolGrant)
    → first_system servers s ≡ some g
    → (member g.server servers && is_word g.tool) ≡ true
unfolding first_system member
first_system-some [] s g h = cc
first_system-some (server ∷ servers) s g h =
    elim (Option-cases (after_prefix (server ++ codes "__") s)) [
      | inl other ↦ ground (arith, h, other, first_system-some servers s g)
      | inr (rest, found) ↦
          ground (arith, h, found, grant_after-some server rest g, text_eq_refl server)
    ]

grants_of-writes :
    (casefold : Text → Text) (tokens : List Text) (gs : List ToolGrant)
    → grants_of casefold tokens ≡ some gs
    → all (is_write_of systems) gs ≡ true
unfolding grants_of grant_of
grants_of-writes casefold [] gs h = ground (arith, h)
grants_of-writes casefold (token ∷ tokens) gs h = elim (Option-cases (grant_of token)) [
  | inl refused ↦ ground (arith, h, refused)
  | inr (g, found) ↦ elim (Option-cases (grants_of casefold tokens)) [
    | inl refused ↦ ground (arith, h, found, refused)
    | inr (rest, parsed) ↦ ground (
      arith,
      h,
      found,
      parsed,
      first_system-some systems token g,
      grants_of-writes casefold tokens rest,
    )
  ]
]

-- Every grant of a text that `parse_grants` accepts is of one of the four systems, for a tool whose
-- name has 1 to 64 characters, and never for a tool that reads.
pub parse_grants-writes :
    (casefold : Text → Text) (u : Unicode) (text : Text) (gs : List ToolGrant)
    → parse_grants casefold u text ≡ some gs
    → all (is_write_of systems) gs ≡ true
unfolding parse_grants
parse_grants-writes casefold u text gs h = elim (Bool-cases (leb (length text) 2000)) [
  | inl short ↦ grants_of-writes casefold (words u text) gs (ground (arith, h, short))
  | inr long ↦ ground (arith, h, long)
]
