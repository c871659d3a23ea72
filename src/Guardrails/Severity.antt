-- ===== src/Guardrails/Severity.antt =====
-- The verdict on a long text is the most severe of its windows.
use ess_mcp.Prelude.{ℕ, suc, ◌≤◌, ◌≡◌, refl, ap, ◌∙◌, false, List, [], ◌∷◌, ◌++◌, arith, Text}
use ess_mcp.Guardrails.Windows.{windows}
use ess_mcp.Guardrails.Cover.{join, windows-AllFit}
use ess_mcp.Guardrails.Verdict.{
  GuardVerdict, severity, transforms, part_of, worse, judge_rest, or_one, chunks_of, evaluate_text,
}

-- Every window's verdict, from index `n` on, is at most as severe as `worst`.
abbrev pub NoneWorse : (ℕ → Text → GuardVerdict) → ℕ → GuardVerdict → List Text → Type 0
NoneWorse judge n worst [] = Unit {0}
NoneWorse judge n worst (s ∷ ss) =
    (severity (judge n s).decision ≤ severity worst.decision) × NoneWorse judge (suc n) worst ss

worse-le :
    (v x : GuardVerdict)
    → (severity v.decision ≤ severity (worse v x).decision)
      × (severity x.decision ≤ severity (worse v x).decision)
unfolding worse
worse-le v x = ground arith

judge_rest-NoneWorse :
    (judge : ℕ → Text → GuardVerdict) (n : ℕ) (v : GuardVerdict) (ss : List Text)
    → (severity v.decision ≤ severity (judge_rest judge n v ss).0.decision)
      × NoneWorse judge n (judge_rest judge n v ss).0 ss
unfolding judge_rest
judge_rest-NoneWorse judge n v [] = (omega arith, tt)
judge_rest-NoneWorse judge n v (s ∷ ss) =
    let x = judge n s in
    let (above, rest) = judge_rest-NoneWorse judge (suc n) (worse v x) ss in
    let both = worse-le v x in (omega (arith, above, both), (omega (arith, above, both), rest))

-- Where no window's verdict transforms, nothing of the text is changed.
abbrev pub NoneTransforms : (ℕ → Text → GuardVerdict) → Type 0
NoneTransforms judge = (n : ℕ) (s : Text) → transforms (judge n s) ≡ false

judge_rest-same :
    (judge : ℕ → Text → GuardVerdict) (n : ℕ) (v : GuardVerdict) (ss : List Text)
    → NoneTransforms judge
    → (judge_rest judge n v ss).1 ≡ join ss
unfolding judge_rest part_of
judge_rest-same judge n v [] h = refl
judge_rest-same judge n v (s ∷ ss) h =
    rw (h n s) (ap (λ t. s ++ t) (judge_rest-same judge (suc n) (worse v (judge n s)) ss h))

-- what `evaluate_text` looks at
abbrev pub looked_at : Text → List Text
looked_at s = let (w, ws) = chunks_of s in w ∷ ws

join-or_one : (ss : List Text) → join ((or_one ss).0 ∷ (or_one ss).1) ≡ join ss
join-or_one [] = refl
join-or_one (w ∷ ws) = refl

join-looked_at : (s : Text) → join (looked_at s) ≡ s
unfolding chunks_of
join-looked_at s = join-or_one (windows s) ∙ (windows-AllFit s).0

-- The verdict on a text is at least as severe as that on each of its windows, which are the whole text;
-- and where no verdict transforms, the text that goes on is the text that came.
pub evaluate_text-NoneWorse :
    (judge : ℕ → Text → GuardVerdict) (s : Text)
    → NoneWorse judge 1 (evaluate_text judge s).0 (looked_at s)
      × (join (looked_at s) ≡ s)
      × (NoneTransforms judge → (evaluate_text judge s).1 ≡ s)
unfolding evaluate_text part_of
evaluate_text-NoneWorse judge s =
    let (w, ws) = chunks_of s in
    let (above, rest) = judge_rest-NoneWorse judge 2 (judge 1 w) ws in
    (
      (above, rest),
      join-looked_at s,
      λ h.
          rw (h 1 w) (ap (λ t. w ++ t) (judge_rest-same judge 2 (judge 1 w) ws h))
          ∙ join-looked_at s,
    )
