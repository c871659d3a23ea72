-- ===== src/Skills/Session/Budget.antt =====
-- demo_agent/skill_runtime.py and demo_agent/web.py, `_call_tool_safe`: how much of its budget a run of a
-- skill spends.
use ess_mcp.Prelude.{
  ℕ, zero, suc, ◌+◌, ◌-◌, ◌≤◌, ◌<◌, ◌≡◌, refl, ap, ◌∙◌, subst, Bool, true, false, List, [], ◌∷◌,
  ◌++◌, arith, if◌then◌else◌, length, length-append, ℤ, pos, negsuc, pred_ℤ, is_positive, clamp,
  pos_part, neg_part,
}
use ess_mcp.Skills.Session.{Python, SkillPackage, budget, max_budget, start, spend}
use ess_mcp.Skills.Session.Checks.{
  Run, Step, asks, spends, gives_up, Reaches, here, next, fresh, In, AllUsed, AllAsked, used_now,
  first_grant-IsGranted, AllAsked-without, AllUsed-append, grant_for-some,
}

-- The counter agrees with what was spent, and calls that were let past it are few.
record IsWithin (py : Python) (p : SkillPackage) (dry_run : Bool) (k : ℕ) (r : Run) : Type 0 where
  same : r.session.skill ≡ p
  mode : r.session.dry_run ≡ dry_run
  few : length r.session.used + length r.asked + 1 ≤ budget py p + k
  left :
      pos_part r.session.remaining + length r.session.used
      ≤ neg_part r.session.remaining + budget py p
  dry : dry_run ≡ true → length r.session.used + length r.asked ≡ 0
  used : AllUsed py p r.session.used
  asked : AllAsked py p r.asked

parts-positive : (z : ℤ) → is_positive z ≡ true → (0 < pos_part z) × (neg_part z ≡ 0)
parts-positive (pos zero) h = cc
parts-positive (pos (suc n)) h = omega arith
parts-positive (negsuc n) h = cc

parts-pred : (z : ℤ) → pos_part (pred_ℤ z) + neg_part z + 1 ≡ neg_part (pred_ℤ z) + pos_part z
parts-pred (pos zero) = omega arith
parts-pred (pos (suc n)) = omega arith
parts-pred (negsuc n) = omega arith

length-without {ℓ} :
    {A : Type ℓ} (before later : List A) (a : A)
    → length (before ++ (a ∷ later)) ≡ length (before ++ later) + 1
length-without [] later a = omega arith
length-without (b ∷ before) later a = omega (arith, length-without before later a)

Step-IsWithin :
    (py : Python) (p : SkillPackage) (dry_run : Bool) (k : ℕ) {r s : Run}
    → Step py k r s
    → IsWithin py p dry_run k r
    → IsWithin py p dry_run k s
unfolding spend
Step-IsWithin py p dry_run k (asks r a found free) w =
    let (wet, positive, first) = grant_for-some py r.session a.server a.tool a.args a.grant found in
    let (listed, fits) =
      first_grant-IsGranted py r.session.skill.grants a.server a.tool a.args a.grant first in
    record {
      same = w.same;
      mode = w.mode;
      few = omega (arith, parts-positive r.session.remaining positive, w.left, w.few);
      left = w.left;
      dry = λ d. cc (w.mode);
      used = w.used;
      asked = (
        record { listed = subst (λ q. In a.grant q.grants) w.same listed; fits = fits },
        w.asked,
      );
    }
Step-IsWithin py p dry_run k (spends r before later a end now held allowed) w =
    let (granted, rest) =
      AllAsked-without py p before later a (subst (AllAsked py p) held w.asked) in
    let shorter = ap length held ∙ length-without before later a in
    let longer = length-append r.session.used (used_now a now ∷ []) in
    record {
      same = w.same;
      mode = w.mode;
      few = omega (arith, shorter, longer, w.few);
      left = omega (arith, parts-pred r.session.remaining, longer, w.left);
      dry = λ d. absurd (omega (arith, shorter, w.dry d));
      used = AllUsed-append py p r.session.used (used_now a now) w.used granted;
      asked = rest;
    }
Step-IsWithin py p dry_run k (gives_up r before later a end held refused) w =
    let (granted, rest) =
      AllAsked-without py p before later a (subst (AllAsked py p) held w.asked) in
    let shorter = ap length held ∙ length-without before later a in
    record {
      same = w.same;
      mode = w.mode;
      few = omega (arith, shorter, w.few);
      left = w.left;
      dry = λ d. absurd (omega (arith, shorter, w.dry d));
      used = w.used;
      asked = rest;
    }

Reaches-IsWithin :
    (py : Python) (p : SkillPackage) (dry_run : Bool) (k : ℕ) {r s : Run}
    → Reaches py k r s
    → IsWithin py p dry_run k r
    → IsWithin py p dry_run k s
Reaches-IsWithin py p dry_run k here w = w
Reaches-IsWithin py p dry_run k (next before step) w =
    Step-IsWithin py p dry_run k step (Reaches-IsWithin py p dry_run k before w)

clamp-le : (limit : ℕ) (z : ℤ) → clamp limit z ≤ limit
clamp-le limit (pos n) = omega arith
clamp-le limit (negsuc n) = omega arith

budget-le : (py : Python) (p : SkillPackage) → budget py p ≤ max_budget
unfolding budget
budget-le py p = grind (arith, clamp-le max_budget)

fresh-IsWithin :
    (py : Python) (p : SkillPackage) (dry_run : Bool) (k : ℕ)
    → 1 ≤ k
    → IsWithin py p dry_run k (fresh py p dry_run)
unfolding start
fresh-IsWithin py p dry_run k h = record {
  same = refl;
  mode = refl;
  few = omega arith;
  left = ground arith;
  dry = λ d. refl;
  used = tt;
  asked = tt;
}

dry-spends_none :
    (dry_run : Bool) (n b : ℕ) → n ≤ b → (dry_run ≡ true → n ≡ 0) → n ≤ (if dry_run then 0 else b)
dry-spends_none true n b h dry = omega (arith, dry refl)
dry-spends_none false n b h dry = h

-- A run of a skill in which at most `k` calls are checked at the same time spends at most k - 1 more than
-- its budget, so never more than it if one call is checked after another, and a dry run spends none; the
-- budget is at most 80; and each action that is spent is one that a grant of the package matches.
pub spent-le-budget :
    (py : Python) (p : SkillPackage) (dry_run : Bool) (k : ℕ) (r : Run)
    → 1 ≤ k
    → Reaches py k (fresh py p dry_run) r
    → (length r.session.used ≤ (if dry_run then 0 else budget py p + (k - 1)))
      × (budget py p ≤ max_budget)
      × AllUsed py p r.session.used
spent-le-budget py p dry_run k r h steps =
    let w = Reaches-IsWithin py p dry_run k steps (fresh-IsWithin py p dry_run k h) in
    (
      dry-spends_none dry_run (length r.session.used) (budget py p + (k - 1)) (omega (arith, w.few))
          (λ d. omega (arith, w.dry d)),
      budget-le py p,
      w.used,
    )
