-- ===== src/CaseDesk/Agenda/Kept.antt =====
-- demo_agent/case_desk.py, `_timer_loop`: no wake-up is forgotten.
use ess_mcp.Prelude.{ℕ, ◌≡◌, ◌⊎◌, false, Option, none, some, List, [], ◌∷◌, Text}
use ess_mcp.CaseDesk.File.{CaseFile}
use ess_mcp.CaseDesk.Index.{agenda_entry}
use ess_mcp.CaseDesk.Agenda.{looks, clears, Timed}

abbrev pub Among {ℓ} : {A : Type ℓ} → (A → Type 0) → List A → Type 0
Among P [] = ⊥
Among P (x ∷ xs) = P x ⊎ Among P xs

abbrev pub entry_of : Option CaseFile → Option (ℕ × Text)
entry_of none = none
entry_of (some c) = agenda_entry c

-- The entry is on the agenda, or will be put there, or the timer has it in hand.
pub data IsRemembered (entry : ℕ × Text) (t : Timed) : Type 0 where
  on_agenda : Among (λ x. x ≡ entry) t.agenda → IsRemembered entry t
  to_index : Among (λ c. agenda_entry c ≡ some entry) t.unindexed → IsRemembered entry t
  in_hand : t.timer ≡ looks entry → IsRemembered entry t
  clearing : t.timer ≡ clears entry → IsRemembered entry t

-- A wake-up that the file of an open case holds is remembered.
abbrev pub IsTimed : Timed → Type 0
IsTimed t =
    t.failed ≡ false
    → (entry : ℕ × Text) → entry_of t.document.case ≡ some entry
    → IsRemembered entry t
