-- ===== src/Skills/Paths.antt =====
-- demo_agent/skill_runtime.py, `Workspace.normalize`: the paths of the files of a run. A path that is no
-- `str` is `none`.
pub mod Normal
use ess_mcp.Prelude.{
  ℕ, Bool, true, false, not, ◌&&◌, ◌||◌, Option, none, some, List, [], ◌∷◌, ◌++◌, leb, ltb, ◌==◌,
  if◌then◌else◌, length, any, all, Text, Unicode, codes, text_eq, Result, ok, err, ◌>>=◌, ◌>>◌,
  require,
}
use ess_mcp.Compliance.Identity.{strip}

-- The texts of the errors that the workspace raises.
pub data Refusal : Type 0 where
  path_required not_relative bad_segment too_large too_many_files workspace_full not_found : Refusal

abbrev pub is_alphanumeric : ℕ → Bool
is_alphanumeric c =
    (leb b'A' c && leb c b'Z') || (leb b'a' c && leb c b'z') || (leb b'0' c && leb c b'9')

abbrev pub is_name_char : ℕ → Bool
is_name_char c = is_alphanumeric c || (c == b'.') || (c == b'_') || (c == b'-')

-- `_SEGMENT.fullmatch`
unfoldable pub is_segment : Text → Bool
is_segment [] = false
is_segment (c ∷ s) = is_alphanumeric c && leb (length s) 79 && all is_name_char s

abbrev pub onto_first : ℕ → List Text → List Text
onto_first c [] = (c ∷ []) ∷ []
onto_first c (s ∷ parts) = (c ∷ s) ∷ parts

-- `text.split(separator)`
unfoldable pub split : ℕ → Text → List Text
split d [] = [] ∷ []
split d (c ∷ s) = let parts = split d s in if c == d then [] ∷ parts else onto_first c parts

-- `separator.join(parts)`
unfoldable pub join : ℕ → List Text → Text
join d [] = []
join d (s ∷ []) = s
join d (s ∷ t ∷ parts) = s ++ (d ∷ join d (t ∷ parts))

-- `if path.startswith("./"): path = path[2:]`
unfoldable pub drop_here : Text → Text
drop_here (a ∷ b ∷ s) = if (a == b'.') && (b == b'/') then s else a ∷ b ∷ s
drop_here s = s

abbrev pub only_dots : Text → Bool
only_dots [] = false
only_dots (c ∷ s) = all (λ d. d == b'.') (c ∷ s)

-- what the first check wants of a path
unfoldable pub is_relative : Text → Bool
is_relative [] = false
is_relative (c ∷ s) =
    leb (length (c ∷ s)) 200
    && not (c == b'/')
    && not (any (λ d. d == 92) (c ∷ s))
    && not (any (λ d. d == b':') (c ∷ s))

-- what the second check wants of its segments
unfoldable pub are_segments : List Text → Bool
are_segments parts = leb (length parts) 5 && all (λ s. is_segment s && not (only_dots s)) parts

-- `Workspace.normalize`
unfoldable pub normalize : Unicode → Option Text → Result Refusal Text
unfolding is_segment split join drop_here is_relative are_segments strip
normalize u none = err path_required
normalize u (some given) = do
  let path = drop_here (strip u given)
  require (is_relative path) not_relative
  let segments = split b'/' path
  require (are_segments segments) bad_segment
  ok (join b'/' segments)
