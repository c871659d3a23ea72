-- ===== src/Skills/Session/Checks.antt =====
-- demo_agent/skill_runtime.py and demo_agent/web.py, `_call_tool_safe`: the calls of one run that ask for a
-- grant, await the policy check, and then spend. Other calls of the run go on during the check.
use ess_mcp.Prelude.{
  ℕ, ◌<◌, ◌≡◌, ◌⊎◌, inl, inr, Bool, true, false, some, List, [], ◌∷◌, ◌++◌, arith, length, Text,
  is_positive, Bool-cases,
}
use ess_mcp.Approvals.Json.{Fields}
use ess_mcp.Skills.Grants.{ToolGrant, matches}
use ess_mcp.Skills.Session.{
  Python, SkillPackage, Use, SkillSession, start, first_grant, grant_for, spend, ScriptEnd,
  check_autonomy,
}

-- a call between `grant_for` and `spend`
pub record Asked : Type 0 where
  pub grant : ToolGrant
  pub server : Text
  pub tool : Text
  pub args : Fields

pub record Run : Type 0 where
  pub session : SkillSession
  pub asked : List Asked

-- At most `k` calls of the run are checked at the same time.
module _ (py : Python) (k : ℕ) where
  pub data Step : Run → Run → Type 0 where
    asks :
        (r : Run) (a : Asked)
        → grant_for py r.session a.server a.tool a.args ≡ some a.grant
        → length r.asked < k
        → Step r (record r { asked = a ∷ r.asked })
    spends :
        (r : Run) (before later : List Asked) (a : Asked) (end : ScriptEnd) (now : ℕ)
        → r.asked ≡ before ++ (a ∷ later)
        → (check_autonomy py r.session.skill end).0 ≡ true
        → Step r (record r {
          session = spend a.grant a.server a.tool a.args now r.session;
          asked = before ++ later;
        })
    gives_up :
        (r : Run) (before later : List Asked) (a : Asked) (end : ScriptEnd)
        → r.asked ≡ before ++ (a ∷ later)
        → (check_autonomy py r.session.skill end).0 ≡ false
        → Step r (record r { asked = before ++ later })

  pub data Reaches (r : Run) : Run → Type 0 where
    here : Reaches r r
    next : {s t : Run} → Reaches r s → Step s t → Reaches r t

abbrev pub fresh : Python → SkillPackage → Bool → Run
fresh py p dry_run = record { session = start py p dry_run; asked = [] }

abbrev pub In : ToolGrant → List ToolGrant → Type 0
In g [] = ⊥
In g (h ∷ gs) = (g ≡ h) ⊎ In g gs

-- The grant is one of the package, and is for this call.
pub record IsGranted (py : Python) (p : SkillPackage) (g : ToolGrant) (server tool : Text)
    (args : Fields) : Type 0 where
  pub listed : In g p.grants
  pub fits : matches py.casefold py.unicode g server tool args ≡ true

abbrev pub AllUsed : Python → SkillPackage → List Use → Type 0
AllUsed py p [] = Unit {0}
AllUsed py p (x ∷ xs) = IsGranted py p x.grant x.server x.tool x.args × AllUsed py p xs

abbrev pub AllAsked : Python → SkillPackage → List Asked → Type 0
AllAsked py p [] = Unit {0}
AllAsked py p (x ∷ xs) = IsGranted py p x.grant x.server x.tool x.args × AllAsked py p xs

abbrev pub used_now : Asked → ℕ → Use
used_now a now = record {
  server = a.server;
  tool = a.tool;
  grant = a.grant;
  at = now;
  args = a.args;
}

pub first_grant-IsGranted :
    (py : Python) (gs : List ToolGrant) (server tool : Text) (args : Fields) (g : ToolGrant)
    → first_grant py gs server tool args ≡ some g
    → In g gs × (matches py.casefold py.unicode g server tool args ≡ true)
unfolding first_grant
first_grant-IsGranted py [] server tool args g h = cc
first_grant-IsGranted py (x ∷ gs) server tool args g h =
    elim (Bool-cases (matches py.casefold py.unicode x server tool args)) [
      | inl fits ↦ ground (arith, h, fits)
      | inr other ↦ ground (arith, h, other, first_grant-IsGranted py gs server tool args g)
    ]

pub AllAsked-without :
    (py : Python) (p : SkillPackage) (before later : List Asked) (a : Asked)
    → AllAsked py p (before ++ (a ∷ later))
    → IsGranted py p a.grant a.server a.tool a.args × AllAsked py p (before ++ later)
AllAsked-without py p [] later a h = h
AllAsked-without py p (b ∷ before) later a h =
    let (granted, rest) = AllAsked-without py p before later a h.1 in (granted, (h.0, rest))

pub AllUsed-append :
    (py : Python) (p : SkillPackage) (xs : List Use) (x : Use)
    → AllUsed py p xs
    → IsGranted py p x.grant x.server x.tool x.args
    → AllUsed py p (xs ++ (x ∷ []))
AllUsed-append py p [] x h g = (g, tt)
AllUsed-append py p (y ∷ xs) x h g = (h.0, AllUsed-append py p xs x h.1 g)

pub grant_for-some :
    (py : Python) (s : SkillSession) (server tool : Text) (args : Fields) (g : ToolGrant)
    → grant_for py s server tool args ≡ some g
    → (s.dry_run ≡ false)
      × (is_positive s.remaining ≡ true)
      × (first_grant py s.skill.grants server tool args ≡ some g)
unfolding grant_for
grant_for-some py s server tool args g h = ground (arith, h)
