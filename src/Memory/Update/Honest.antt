-- ===== src/Memory/Update/Honest.antt =====
-- What the other writers of a scope may do: leave the row, or store a later version.
use ess_mcp.Prelude.{
  ℕ, ◌<◌, ◌≡◌, ◌⊎◌, inl, inr, ◌∙◌, Bool, true, false, Option, none, some, arith, ok,
}
use ess_mcp.Memory.State.{State}
use ess_mcp.Memory.Storage.{Cell, compare_and_swap}
use ess_mcp.Memory.Update.{Moment}

-- 0 for a missing row: SQLite's versions begin at 1.
abbrev pub rank : {T : Type 0} → Cell T → ℕ
rank none = 0
rank (some r) = r.version

abbrev pub Later : {T : Type 0} → Cell T → Cell T → Type 0
Later c d = (d ≡ c) ⊎ (rank c < rank d)

abbrev pub IsHonest : {T : Type 0} → (Cell T → Cell T) → Type 0
IsHonest {T} f = (c : Cell T) → Later c (f c)

pub record AreHonest {T : Type 0} (moments : ℕ → Moment T) : Type 0 where
  pub before : (n : ℕ) → IsHonest (moments n).before
  pub between : (n : ℕ) → IsHonest (moments n).between

pub Later-trans : {T : Type 0} (c d e : Cell T) → Later c d → Later d e → Later c e
Later-trans c d e (inl p) (inl q) = inl (q ∙ p)
Later-trans c d e (inl p) (inr q) = inr (rw (← p) q)
Later-trans c d e (inr p) (inl q) = inr (rw q p)
Later-trans c d e (inr p) (inr q) = inr (omega arith)

-- Another process's compare-and-swap is such a writer.
pub compare_and_swap-Later :
    {T : Type 0} (version : Option ℕ) (s : State T) (c : Cell T) (written : Bool) (d : Cell T)
    → compare_and_swap version s c ≡ ok (written, d)
    → (written ≡ true → rank c < rank d) × (written ≡ false → d ≡ c)
unfolding compare_and_swap
compare_and_swap-Later none s none written d h = ground arith
compare_and_swap-Later none s (some r) written d h = ground arith
compare_and_swap-Later (some v) s none written d h = ground arith
compare_and_swap-Later (some v) s (some r) written d h = ground arith
