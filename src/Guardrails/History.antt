-- ===== src/Guardrails/History.antt =====
-- The history of policies: numbered upwards, bounded, and restorable.
use ess_mcp.Prelude.{
  ℕ, ◌+◌, ◌-◌, ◌≤◌, ◌<◌, ◌≡◌, refl, sym, ap, subst, ◌∙◌, true, some, List, [], ◌∷◌, ◌++◌, arith,
  ◌==◌, length, drop, last, length-append, last-append, last_of_length-le, Text, codes, Bool-cases,
  Option-cases, inl, inr,
}
use ess_mcp.Guardrails.Versions.{
  PolicyVersion, PolicyTools, Engine, last_or, active, keep, published, publish, restore_version,
  version_source, max_versions,
}

module _ {D : Type 0} where
  -- the numbers increase, from `n` on
  abbrev pub AreRising : ℕ → List (PolicyVersion D) → Type 0
  AreRising n [] = Unit {0}
  AreRising n (v ∷ vs) = (n < v.version) × AreRising v.version vs

  AreRising-weaken :
      (m n : ℕ) (vs : List (PolicyVersion D)) → m ≤ n → AreRising n vs → AreRising m vs
  AreRising-weaken m n [] h k = tt
  AreRising-weaken m n (v ∷ vs) h k = (omega (arith, h, k.0), k.1)

  -- At most twelve versions, numbered upwards.
  pub record IsHistory (e : Engine D) : Type 0 where
    pub few : length e.later + 1 ≤ max_versions
    pub rising : AreRising e.first.version e.later

  rising-append :
      (v : PolicyVersion D) (vs : List (PolicyVersion D)) (x : PolicyVersion D)
      → AreRising v.version vs
      → (last_or v vs).version < x.version
      → AreRising v.version (vs ++ (x ∷ []))
  unfolding last_or
  rising-append v [] x h k = (k, tt)
  rising-append v (y ∷ ys) x h k = (h.0, rising-append y ys x h.1 k)

  last_or-append :
      (v : PolicyVersion D) (vs : List (PolicyVersion D)) (x : PolicyVersion D)
      → last_or v (vs ++ (x ∷ [])) ≡ x
  unfolding last_or
  last_or-append v [] x = refl
  last_or-append v (y ∷ ys) x = last_or-append y ys x

  -- a history of thirteen loses its first version
  last-thirteen :
      (v : PolicyVersion D) (vs : List (PolicyVersion D))
      → length vs ≡ 12
      → last max_versions (v ∷ vs) ≡ vs
  last-thirteen v vs h =
      last-append max_versions (v ∷ []) vs (omega (arith, h))
      ∙ (let n : 1 + length vs - max_versions ≡ 1 = omega (arith, h) in
          subst (λ k. drop k (v ∷ []) ++ vs ≡ vs) (sym n) refl)

  thirteen :
      (v : PolicyVersion D) (vs : List (PolicyVersion D)) (e : Engine D)
      → length vs ≡ 12
      → AreRising v.version vs
      → IsHistory (keep v vs e) × (active (keep v vs e) ≡ last_or v vs)
  unfolding keep active last_or
  thirteen v [] e h k = absurd (omega (arith, h))
  thirteen v (y ∷ ys) e h k =
      rw (last-thirteen v (y ∷ ys) h, keep) (record { few = omega (arith, h); rising = k.1 }, refl)

  keep-cases :
      (v : PolicyVersion D) (vs : List (PolicyVersion D)) (e : Engine D)
      → length vs ≤ max_versions
      → AreRising v.version vs
      → IsHistory (keep v vs e) × (active (keep v vs e) ≡ last_or v vs)
  unfolding keep active last_or
  keep-cases v vs e h k = elim (Bool-cases (length vs == 12)) [
    | inr short ↦
        rw (last_of_length-le max_versions (v ∷ vs) (ground (arith, h, short)), keep)
          (record { few = ground (arith, h, short); rising = k }, refl)
    | inl long ↦ thirteen v vs e (ground (arith, long)) k
  ]

  -- What a publication makes of the engine `e`.
  pub record IsPublished (w : PolicyTools D) (rego : Text) (params : D) (e f : Engine D)
      : Type 0 where
    pub history : IsHistory f
    pub valid : w.is_valid rego params ≡ true
    pub source : (active f).rego ≡ rego
    pub parameters : (active f).params ≡ params
    pub number : (active f).version ≡ (active e).version + 1

  kept-IsPublished :
      (w : PolicyTools D) (now : ℕ) (rego : Text) (params : D) (author note : Text) (e : Engine D)
      → w.is_valid rego params ≡ true
      → IsHistory e
      → IsPublished w rego params e
          (keep e.first (e.later ++ (published w now rego params author note e ∷ [])) e)
  unfolding published active
  kept-IsPublished w now rego params author note e valid h =
      let x = published w now rego params author note e in
      let (history, is_active) =
        keep-cases e.first (e.later ++ (x ∷ [])) e
          (omega (arith, h.few, length-append e.later (x ∷ [])))
          (rising-append e.first e.later x h.rising (omega arith)) in
      let newest = is_active ∙ last_or-append e.first e.later x in
      record {
        history = history;
        valid = valid;
        source = ap (λ (v : PolicyVersion D). v.rego) newest;
        parameters = ap (λ (v : PolicyVersion D). v.params) newest;
        number = ap (λ (v : PolicyVersion D). v.version) newest;
      }

  pub publish-IsPublished :
      (w : PolicyTools D) (now : ℕ) (rego : Text) (params : D) (author note : Text) (e f : Engine D)
      → publish w now rego params author note e ≡ some f
      → IsHistory e
      → IsPublished w rego params e f
  unfolding publish
  publish-IsPublished w now rego params author note e f p h =
      elim (Bool-cases (w.is_valid rego params)) [
        | inr bad ↦ absurd (ground (arith, p, bad))
        | inl valid ↦
            let same : keep e.first (e.later ++ (published w now rego params author note e ∷ [])) e
                ≡ f =
              ground (arith, p, valid) in
            subst (IsPublished w rego params e) same
              (kept-IsPublished w now rego params author note e valid h)
      ]

  -- Restoring a version that succeeds makes its policy, which is still valid, the active one, under a new
  -- number that is above all others; at most twelve versions are kept, numbered upwards.
  pub restore_version-IsPublished :
      (w : PolicyTools D) (now number : ℕ) (author : Text) (e f : Engine D)
      → restore_version w now number author e ≡ some f
      → IsHistory e
      → (v : PolicyVersion D) × (version_source number e ≡ some v)
        × IsPublished w v.rego v.params e f
  unfolding restore_version version_source
  restore_version-IsPublished w now number author e f p h =
      elim (Option-cases (version_source number e)) [
        | inl gone ↦ absurd (ground (arith, p, gone))
        | inr (v, kept) ↦ (
          v,
          kept,
          publish-IsPublished w now v.rego v.params author
              (codes "Restored version " ++ w.printed number) e f (ground (arith, p, kept)) h,
        )
      ]
