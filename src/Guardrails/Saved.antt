-- ===== src/Guardrails/Saved.antt =====
-- demo_agent/guardrails.py, `export` and `restore`: the versions and the mode over a restart. `sound` says
-- whether `_validate_data` finds no problem with parameters, and `fixed` whether AUTOPILOT_GUARDRAILS is
-- set. Numbers and times of a saved state are natural, as in those that `export` makes; the loading
-- of the active policy into the engine, `rebuild`, is left out.
pub mod RoundTrip
use ess_mcp.Prelude.{
  ℕ, Bool, true, false, not, ◌&&◌, Option, none, some, List, [], ◌∷◌, ◌++◌, leb, if◌then◌else◌,
  take, last, Text,
}
use ess_mcp.Guardrails.Verdict.{Mode}
use ess_mcp.Guardrails.Versions.{PolicyVersion, PolicyTools, Engine, max_versions}

-- A version in a saved state, with the fields that have the right type; a missing author or note is empty.
pub record SavedVersion (D : Type 0) : Type 0 where
  pub number : Option ℕ
  pub rego : Option Text
  pub params : Option D
  pub author : Text
  pub note : Text
  pub at : ℕ

-- A saved state: an item that is no dictionary, a mode that is unknown and a change that is no dictionary
-- are `none`.
pub record Saved (D : Type 0) : Type 0 where
  pub mode : Option Mode
  pub changed : Option (Text × ℕ)
  pub versions : List (Option (SavedVersion D))

module _ {D : Type 0} where
  unfoldable pub saved_version : PolicyVersion D → Option (SavedVersion D)
  saved_version v = some (record {
    number = some v.version;
    rego = some v.rego;
    params = some v.params;
    author = v.author;
    note = v.note;
    at = v.at;
  })

  unfoldable pub saved_versions : List (PolicyVersion D) → List (Option (SavedVersion D))
  saved_versions [] = []
  saved_versions (v ∷ vs) = saved_version v ∷ saved_versions vs

  -- `export`
  unfoldable pub export : Engine D → Saved D
  unfolding saved_versions
  export e = record {
    mode = some e.mode;
    changed = some (e.changed_by, e.changed_at);
    versions = saved_versions (e.first ∷ e.later);
  }

  unfoldable pub version_with :
      PolicyTools D
      → (D → Bool)
      → SavedVersion D
      → Option ℕ
      → Option Text
      → Option D
      → Option (PolicyVersion D)
  version_with w sound s (some number) (some rego) (some params) =
      if sound params
      then some (record {
        version = number;
        rego = rego;
        params = params;
        author = take 200 s.author;
        note = take 300 s.note;
        at = s.at;
        sha = w.sha rego params;
      })
      else none
  version_with w sound s _ _ _ = none

  -- the version that `restore` makes of an item, if it takes it
  unfoldable pub version_of :
      PolicyTools D → (D → Bool) → Option (SavedVersion D) → Option (PolicyVersion D)
  unfolding version_with
  version_of w sound none = none
  version_of w sound (some s) = version_with w sound s s.number s.rego s.params

  unfoldable pub versions_of :
      PolicyTools D → (D → Bool) → List (Option (SavedVersion D)) → List (PolicyVersion D)
  unfolding version_of
  versions_of w sound [] = []
  versions_of w sound (item ∷ items) =
      let rest = versions_of w sound items in
      elim (version_of w sound item) [ none ↦ rest | some v ↦ v ∷ rest ]

  unfoldable pub place_version : PolicyVersion D → List (PolicyVersion D) → List (PolicyVersion D)
  place_version v [] = v ∷ []
  place_version v (x ∷ xs) =
      let rest = place_version v xs in if leb v.version x.version then v ∷ (x ∷ xs) else x ∷ rest

  -- sorted by number, those with one number in their order
  unfoldable pub by_number : List (PolicyVersion D) → List (PolicyVersion D)
  unfolding place_version
  by_number [] = []
  by_number (v ∷ vs) = place_version v (by_number vs)

  -- the versions of `restore`, if there are any
  unfoldable pub with_versions : List (PolicyVersion D) → Engine D → Engine D
  unfolding by_number
  with_versions vs e = elim (last max_versions (by_number vs)) [
    | [] ↦ e
    | x ∷ xs ↦ record e { first = x; later = xs }
  ]

  -- the mode of `restore`
  unfoldable pub with_mode : Bool → Option Mode → Option (Text × ℕ) → Engine D → Engine D
  with_mode true mode changed e = e
  with_mode false none changed e = e
  with_mode false (some mode) none e = record e { mode = mode }
  with_mode false (some mode) (some (by, at)) e = record e {
    mode = mode;
    changed_by = take 200 by;
    changed_at = at;
  }

  -- `restore`, of a state that is a dictionary
  unfoldable pub restore : PolicyTools D → (D → Bool) → Bool → Saved D → Engine D → Engine D
  unfolding with_versions with_mode versions_of
  restore w sound fixed s e =
      with_mode fixed s.mode s.changed (with_versions (versions_of w sound s.versions) e)
