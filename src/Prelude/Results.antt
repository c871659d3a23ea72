-- ===== src/Prelude/Results.antt =====
-- A computation that may raise: an exception is a value of the program's own error type.
use mathlib.Core.Bool.{Bool, true, false}
use mathlib.Core.Logic.{◌⊎◌, inl, inr}
use mathlib.Core.Path.{◌≡◌, refl}

pub data Result {ℓ} (E A : Type ℓ) : Type ℓ where
  ok : A → Result E A
  err : E → Result E A

module _ {ℓ} {E : Type ℓ} where
  infixl 5 ◌>>=◌ ◌>>◌
  abbrev pub ◌>>=◌ : {A B : Type ℓ} → Result E A → (A → Result E B) → Result E B
  m >>= next = elim m [ ok a ↦ next a | err raised ↦ err raised ]

  abbrev pub ◌>>◌ : {B : Type ℓ} → Result E (Unit {ℓ}) → Result E B → Result E B
  check >> rest = elim check [ ok _ ↦ rest | err raised ↦ err raised ]

  pub Result-cases :
      {A : Type ℓ} (m : Result E A) → ((a : A) × (m ≡ ok a)) ⊎ ((raised : E) × (m ≡ err raised))
  Result-cases (ok a) = inl (a, refl)
  Result-cases (err raised) = inr (raised, refl)

-- `if not test: raise e`
abbrev pub require : {E : Type 0} → Bool → E → Result E (Unit {0})
require test raised = elim test [ true ↦ ok tt | false ↦ err raised ]
