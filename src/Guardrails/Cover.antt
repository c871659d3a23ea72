-- ===== src/Guardrails/Cover.antt =====
-- The windows of a text are the text, and each is short.
use ess_mcp.Prelude.{
  ℕ, zero, suc, ◌/◌, ◌≤◌, ◌<◌, ◌≡◌, refl, ap, ◌∙◌, some, List, [], ◌∷◌, ◌++◌, arith, leb, length,
  take, drop, length-take, length-drop, take-append-drop, Text, Bool-cases, Option-cases, inl, inr,
}
use ess_mcp.Guardrails.Windows.{text_chunk, last_newline, piece, windows_from, windows}

abbrev pub join : List Text → Text
join [] = []
join (s ∷ ss) = s ++ join ss

-- no window is empty, and none is longer than `n`
abbrev pub AllFit : ℕ → List Text → Type 0
AllFit n [] = Unit {0}
AllFit n (s ∷ ss) = (1 ≤ length s) × (length s ≤ n) × AllFit n ss

last_newline-lt : (s : Text) (n : ℕ) → last_newline s ≡ some n → n < length s
unfolding last_newline
last_newline-lt [] n h = absurd (ground (arith, h))
last_newline-lt (c ∷ s) n h = elim (Option-cases (last_newline s)) [
  | inl absent ↦ ground (arith, h, absent)
  | inr (m, present) ↦ ground (arith, h, present, last_newline-lt s m present)
]

piece_bounds :
    (chunk : ℕ) (s : Text)
    → 1 ≤ chunk
    → 1 ≤ length s
    → (1 ≤ piece chunk s) × (piece chunk s ≤ chunk) × (piece chunk s ≤ length s)
unfolding piece
piece_bounds chunk s k n = elim (Bool-cases (leb (length s) chunk)) [
  | inl fits ↦ ground (arith, fits, n)
  | inr long ↦ elim (Option-cases (last_newline (drop (chunk / 2) (take chunk s)))) [
    | inl absent ↦ ground (arith, k, long, absent)
    | inr (m, present) ↦
        let bound = last_newline-lt (drop (chunk / 2) (take chunk s)) m present in
        rw (long, present, piece)
          (ground (arith, long, bound, length-drop (chunk / 2) (take chunk s), length-take chunk s))
  ]
]

windows_from-fit :
    (chunk fuel : ℕ) (s : Text)
    → 1 ≤ chunk
    → length s ≤ fuel
    → (join (windows_from chunk fuel s) ≡ s) × AllFit chunk (windows_from chunk fuel s)
unfolding windows_from
windows_from-fit chunk zero [] k h = (refl, tt)
windows_from-fit chunk zero (c ∷ s) k h = absurd (omega (arith, h))
windows_from-fit chunk (suc fuel) [] k h = (refl, tt)
windows_from-fit chunk (suc fuel) (c ∷ s) k h =
    let n = piece chunk (c ∷ s) in
    let b = piece_bounds chunk (c ∷ s) k (omega arith) in
    let (joined, fit) =
      windows_from-fit chunk fuel (drop n (c ∷ s)) k (omega (arith, h, b, length-drop n (c ∷ s))) in
    (
      ap (λ t. take n (c ∷ s) ++ t) joined ∙ take-append-drop n (c ∷ s),
      (omega (arith, b, length-take n (c ∷ s)), omega (arith, b, length-take n (c ∷ s)), fit),
    )

-- The windows of a text are the whole text in order, none is empty, and none has more than 60000
-- characters.
pub windows-AllFit : (s : Text) → (join (windows s) ≡ s) × AllFit text_chunk (windows s)
unfolding windows
windows-AllFit s = windows_from-fit text_chunk (length s) s (omega arith) (omega arith)
