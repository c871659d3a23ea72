-- ===== src/Guardrails/Windows.antt =====
-- demo_agent/guardrails.py, `_windows`: a long text in pieces, cut behind a line's end where one is near.
use ess_mcp.Prelude.{
  ℕ, zero, suc, ◌+◌, ◌/◌, Option, none, some, List, [], ◌∷◌, leb, ◌==◌, if◌then◌else◌, length, take,
  drop, Text,
}

abbrev pub text_chunk : ℕ
text_chunk = 60000

-- `rfind("\n")`: the place of the last line's end
unfoldable pub last_newline : Text → Option ℕ
last_newline [] = none
last_newline (c ∷ s) = elim (last_newline s) [
  | some n ↦ some (suc n)
  | none ↦ if c == 10 then some 0 else none
]

-- How long the first piece is: all that is left, or up to a line's end in the second half of a chunk, or
-- a chunk.
unfoldable pub piece : ℕ → Text → ℕ
piece chunk s =
    if leb (length s) chunk
    then length s
    else (elim (last_newline (drop (chunk / 2) (take chunk s))) [
      | some n ↦ chunk / 2 + n + 1
      | none ↦ chunk
    ])

-- The loop of `_windows`, on the text from `start` on; each round takes a character at least, so the
-- length of the text is enough fuel.
unfoldable pub windows_from : ℕ → ℕ → Text → List Text
windows_from chunk zero s = []
windows_from chunk (suc fuel) [] = []
windows_from chunk (suc fuel) (c ∷ s) =
    let n = piece chunk (c ∷ s) in take n (c ∷ s) ∷ windows_from chunk fuel (drop n (c ∷ s))

-- `_windows`
unfoldable pub windows : Text → List Text
unfolding windows_from
windows s = windows_from text_chunk (length s) s
