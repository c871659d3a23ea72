-- ===== src/Skills/Paths/Normal.antt =====
-- demo_agent/skill_runtime.py: a path that `normalize` accepts is in its normal form.
use ess_mcp.Prelude.{ℕ, ◌≡◌, Bool, true, false, ◌||◌, some, List, ◌==◌, Text, Unicode, ok}
use mathlib.Core.List.{reverse_aux, reverse_aux}
use ess_mcp.Skills.Paths.{is_name_char, split, is_relative, are_segments, normalize}

abbrev is_path_char : ℕ → ℕ → Bool
is_path_char d c = is_name_char c || (c == d)

-- White space is in no path.
abbrev pub SpacesAreForeign : Unicode → Type 0
SpacesAreForeign u = (c : ℕ) → is_path_char b'/' c ≡ true → u.space c ≡ false

-- What the checks of `normalize` have found of its result.
pub record IsNormal (u : Unicode) (q : Text) : Type 0 where
  pub relative : is_relative q ≡ true
  pub segments : are_segments (split b'/' q) ≡ true
  pub again : normalize u (some q) ≡ ok q
