-- ===== src/Guardrails/Versions.antt =====
-- demo_agent/guardrails.py, `PolicyVersion` and its history in `GuardrailEngine`. Whether a policy is valid
-- and compiles is decided by the engine and OPA; `D` is the type of
-- its parameters, `data` in the code.
use ess_mcp.Prelude.{
  ℕ, ◌+◌, Bool, not, Option, none, some, List, [], ◌∷◌, ◌++◌, ◌==◌, if◌then◌else◌, take, last, Text,
  codes,
}
use ess_mcp.Guardrails.Verdict.{Mode}

abbrev pub max_versions : ℕ
max_versions = 12

pub record PolicyVersion (D : Type 0) : Type 0 where
  pub version : ℕ
  pub rego : Text
  pub params : D
  pub author : Text
  pub note : Text
  pub at : ℕ
  pub sha : Text

-- What the engine needs of its surroundings: the report of `validate`, whether `_compile` succeeds, the
-- digest, and the printed form of a number.
pub record PolicyTools (D : Type 0) : Type 0 where
  pub is_valid : Text → D → Bool
  pub compiles : Text → D → Bool
  pub sha : Text → D → Text
  pub printed : ℕ → Text

-- `_versions`, the oldest first; the list is never empty, so the first stands apart.
pub record Engine (D : Type 0) : Type 0 where
  pub first : PolicyVersion D
  pub later : List (PolicyVersion D)
  pub mode : Mode
  pub changed_by : Text
  pub changed_at : ℕ

module _ {D : Type 0} where
  unfoldable pub last_or : PolicyVersion D → List (PolicyVersion D) → PolicyVersion D
  last_or v [] = v
  last_or v (x ∷ xs) = last_or x xs

  -- `active`
  unfoldable pub active : Engine D → PolicyVersion D
  unfolding last_or
  active e = last_or e.first e.later

  -- the versions that are kept: `del self._versions[:-MAX_VERSIONS]`
  unfoldable pub keep : PolicyVersion D → List (PolicyVersion D) → Engine D → Engine D
  keep v vs e = elim (last max_versions (v ∷ vs)) [
    | [] ↦ e
    | x ∷ xs ↦ record e { first = x; later = xs }
  ]

  -- the version that `publish` makes
  unfoldable pub published : PolicyTools D → ℕ → Text → D → Text → Text → Engine D → PolicyVersion D
  published w now rego params author note e = record {
    version = (active e).version + 1;
    rego = rego;
    params = params;
    author = take 200 author;
    note = take 300 note;
    at = now;
    sha = w.sha rego params;
  }

  -- `publish`; `none` where it raises
  unfoldable pub publish : PolicyTools D → ℕ → Text → D → Text → Text → Engine D → Option (Engine D)
  publish w now rego params author note e =
      if not (w.is_valid rego params)
      then none
      else if not (w.compiles rego params)
      then none
      else some (keep e.first (e.later ++ (published w now rego params author note e ∷ [])) e)

  find_version : ℕ → List (PolicyVersion D) → Option (PolicyVersion D)
  find_version n [] = none
  find_version n (v ∷ vs) = let rest = find_version n vs in if v.version == n then some v else rest

  -- `restore_version`
  unfoldable pub restore_version : PolicyTools D → ℕ → ℕ → Text → Engine D → Option (Engine D)
  unfolding find_version
  restore_version w now number author e = elim (find_version number (e.first ∷ e.later)) [
    | none ↦ none
    | some v ↦
        publish w now v.rego v.params author (codes "Restored version " ++ w.printed number) e
  ]

  -- `version_source`
  unfoldable pub version_source : ℕ → Engine D → Option (PolicyVersion D)
  unfolding find_version
  version_source number e = find_version number (e.first ∷ e.later)

  -- `set_mode`, of a known mode
  unfoldable pub set_mode : Mode → Text → ℕ → Engine D → Engine D
  set_mode mode author now e = record e {
    mode = mode;
    changed_by = take 200 author;
    changed_at = now;
  }
