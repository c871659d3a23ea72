-- ===== src/Guardrails/Saved/RoundTrip.antt =====
-- demo_agent/guardrails.py: a published policy survives a restart.
use ess_mcp.Prelude.{◌≤◌, ◌≡◌, Bool, true, List, [], ◌∷◌, length}
use ess_mcp.Guardrails.Versions.{PolicyVersion, PolicyTools, Engine}
use ess_mcp.Guardrails.History.{IsHistory}

module _ {D : Type 0} (w : PolicyTools D) (sound : D → Bool) where
  -- What `publish` gives to every version.
  pub record IsComplete (v : PolicyVersion D) : Type 0 where
    pub sane : sound v.params ≡ true
    pub author : length v.author ≤ 200
    pub note : length v.note ≤ 300
    pub digest : w.sha v.rego v.params ≡ v.sha

  abbrev pub AllComplete : List (PolicyVersion D) → Type 0
  AllComplete [] = Unit {0}
  AllComplete (v ∷ vs) = IsComplete v × AllComplete vs

  -- The versions of an engine, and who changed its mode, are as the operations leave them.
  pub record HasVersions (e : Engine D) : Type 0 where
    pub complete : AllComplete (e.first ∷ e.later)
    pub by : length e.changed_by ≤ 200

  -- An engine whose versions were published, and whose mode was set by set_mode.
  pub record IsSettled (e : Engine D) : Type 0 where
    pub history : IsHistory e
    pub versions : HasVersions e

  abbrev chosen : List (PolicyVersion D) → Engine D → Engine D
  chosen vs e = elim vs [ [] ↦ e | x ∷ xs ↦ record e { first = x; later = xs } ]
