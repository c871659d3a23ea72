-- ===== src/Prelude/Texts.antt =====
-- A Python `str` is the list of its code points. Which code points are printable or white space
-- comes from Python's Unicode tables, which enter as a record.
use Prim.Native.Nat.{ℕ, ◌+◌}
use Prim.Native.Char.{code}
use Prim.Native.String.{String}
use mathlib.Core.Path.{◌≡◌, refl}
use mathlib.Core.Logic.{◌↔◌}
use mathlib.Core.Bool.{Bool, true, false, not, ◌&&◌, ◌||◌}
use mathlib.Core.List.{List, [], ◌∷◌, map}
use native.Mathlib.Omega.{arith}
use ess_mcp.Prelude.Tests.{ltb, leb, ◌==◌, if◌then◌else◌}
use ess_mcp.Prelude.Lists.{any}

abbrev pub Text : Type 0
Text = List ℕ

abbrev pub codes : String → Text
codes String.[] = []
codes (String.◌∷◌ c s) = code c ∷ codes s

pub record Unicode : Type 0 where
  pub printable : ℕ → Bool
  pub space : ℕ → Bool

abbrev pub ascii : Unicode
ascii = record {
  printable = λ c. leb 32 c && ltb c 127;
  space = λ c. (c == 32) || (leb 9 c && leb c 13);
}

unfoldable pub text_eq : Text → Text → Bool
text_eq [] [] = true
text_eq [] (c ∷ s) = false
text_eq (c ∷ s) [] = false
text_eq (c ∷ s) (d ∷ t) = c == d && text_eq s t

text_eq→eq : (s t : Text) → text_eq s t ≡ true → s ≡ t
unfolding text_eq
text_eq→eq [] [] h = refl
text_eq→eq [] (c ∷ s) h = ground arith
text_eq→eq (c ∷ s) [] h = ground arith
text_eq→eq (c ∷ s) (d ∷ t) h = ground (arith, text_eq→eq s t)

pub text_eq_refl : (s : Text) → text_eq s s ≡ true
unfolding text_eq
text_eq_refl [] = refl
text_eq_refl (c ∷ s) = ground (arith, text_eq_refl s)

pub text_eq_iff : (s t : Text) → (text_eq s t ≡ true) ↔ (s ≡ t)
text_eq_iff s t = (text_eq→eq s t, λ e. ground (arith, text_eq_refl s))

-- `item in texts`
unfoldable pub member : Text → List Text → Bool
member s [] = false
member s (t ∷ ts) = text_eq s t || member s ts

-- ASCII part of `str.lower`.
unfoldable pub lower : Text → Text
lower = map (λ c. if leb b'A' c && leb c b'Z' then c + 32 else c)

unfoldable pub drop_spaces : Unicode → Text → Text
drop_spaces u [] = []
drop_spaces u (c ∷ s) = let rest = drop_spaces u s in if u.space c then rest else c ∷ s

-- `bool(value.strip())`: some code point is no white space.
abbrev pub nonblank : Unicode → Text → Bool
nonblank u = any (λ c. not (u.space c))
