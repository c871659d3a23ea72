-- ===== src/Guardrails/Examples.antt =====
-- A short text and a judge: the theorems of Guardrails at them.
use ess_mcp.Prelude.{
  ℕ, ◌≡◌, refl, true, false, none, some, [], ◌∷◌, arith, Text, codes, last, ltb, if◌then◌else◌,
}
use ess_mcp.Guardrails.Cover.{join}
use ess_mcp.Guardrails.Verdict.{GuardVerdict, enforce, allow, deny, evaluate_text}
use ess_mcp.Guardrails.Versions.{
  PolicyVersion, PolicyTools, Engine, active, keep, published, publish, restore_version,
  version_source,
}
use ess_mcp.Guardrails.History.{IsHistory, IsPublished, restore_version-IsPublished}
use ess_mcp.Guardrails.Severity.{NoneWorse, NoneTransforms, looked_at, evaluate_text-NoneWorse}

abbrev text : Text
text = codes "first line\nsecond line"

abbrev judge : ℕ → Text → GuardVerdict
judge n s = record {
  point = codes "output";
  decision = if ltb 1 n then deny else allow;
  reason = [];
  mode = enforce;
  transformed = none;
  applied = false;
}

evaluate_text-NoneWorse_example :
    NoneWorse judge 1 (evaluate_text judge text).0 (looked_at text)
    × (join (looked_at text) ≡ text)
    × (NoneTransforms judge → (evaluate_text judge text).1 ≡ text)
evaluate_text-NoneWorse_example = evaluate_text-NoneWorse judge text

abbrev tools : PolicyTools Text
tools = record {
  is_valid = λ rego params. true;
  compiles = λ rego params. true;
  sha = λ rego params. codes "sha";
  printed = λ n. codes "1";
}

abbrev first_version : PolicyVersion Text
first_version = record {
  version = 1;
  rego = codes "package guardrails";
  params = codes "{}";
  author = codes "built-in";
  note = [];
  at = 0;
  sha = codes "sha";
}

abbrev engine : Engine Text
engine = record {
  first = first_version;
  later = [];
  mode = enforce;
  changed_by = [];
  changed_at = 0;
}

engine-IsHistory : IsHistory engine
engine-IsHistory = record { few = omega arith; rising = tt }

abbrev restored : Engine Text
restored = record engine {
  later =
      record first_version {
        version = 2;
        author = codes "Ada";
        note = codes "Restored version 1";
        at = 7;
      }
      ∷ [];
}

restores : restore_version tools 7 1 (codes "Ada") engine ≡ some restored
unfolding restore_version publish published keep active last
restores = refl

restore_version-IsPublished_example :
    (v : PolicyVersion Text) × (version_source 1 engine ≡ some v)
    × IsPublished tools v.rego v.params engine restored
restore_version-IsPublished_example =
    restore_version-IsPublished tools 7 1 (codes "Ada") engine restored restores engine-IsHistory

abbrev published_again : Engine Text
published_again = record engine {
  later =
      record first_version { version = 2; author = codes "Ada"; note = codes "same"; at = 7 } ∷ [];
}
