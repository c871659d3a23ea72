-- ===== src/CaseDesk/File/Turns.antt =====
-- What a turn leaves behind.
use ess_mcp.Prelude.{
  ℕ, ◌+◌, ◌≤◌, ◌<◌, ◌≡◌, ◌≢◌, refl, sym, ◌∙◌, true, false, not, ◌&&◌, some, arith, leb,
  if◌then◌else◌, Bool-cases, inl, inr, ◌⊎◌,
}
use ess_mcp.CaseDesk.Event.{Surroundings, is_empty}
use ess_mcp.CaseDesk.File.{
  Status, working, waiting, escalated, is_final, Waiting, CaseFile, max_errors,
}
use ess_mcp.CaseDesk.File.Turn.{
  Outcome, is_set, record_turn, escalate, is_working, owe_step, finish_turn,
}

record_turn-keeps :
    (w : Surroundings) (now : ℕ) (o : Outcome) (c : CaseFile)
    → ((record_turn w now o c).status ≡ c.status)
      × ((record_turn w now o c).next_wake_at ≡ c.next_wake_at)
      × ((record_turn w now o c).errors ≡ (if is_empty o.error then 0 else c.errors + 1))
      × ((record_turn w now o c).turns ≡ c.turns + 1)
unfolding record_turn
record_turn-keeps w now o c = (refl, refl, refl, refl)

-- the three ways in which a turn ends
pub data TurnEnds (w : Surroundings) (now : ℕ) (o : Outcome) (c : CaseFile) : Type 0 where
  gives_up :
      max_errors ≤ (record_turn w now o c).errors
      → is_final c.status ≡ false
      → finish_turn w now o c ≡ escalate now (record_turn w now o c)
      → TurnEnds w now o c
  owes :
      c.status ≡ working
      → (record_turn w now o c).errors < max_errors
      → finish_turn w now o c ≡ owe_step now o (record_turn w now o c)
      → TurnEnds w now o c
  stands :
      c.status ≢ working
      → is_final c.status ≡ true ⊎ (record_turn w now o c).errors < max_errors
      → finish_turn w now o c ≡ record_turn w now o c
      → TurnEnds w now o c

not_working : (s : Status) → is_working s ≡ false → s ≢ working
not_working s h e = ground (arith, h, e)

working-not-final : (s : Status) → is_working s ≡ true → (s ≡ working) × (is_final s ≡ false)
unfolding is_final
working-not-final s h = ground (arith, h)

pub turn_ends : (w : Surroundings) (now : ℕ) (o : Outcome) (c : CaseFile) → TurnEnds w now o c
unfolding finish_turn
turn_ends w now o c =
    let keeps = record_turn-keeps w now o c in
    let done = record_turn w now o c in
    elim (Bool-cases (leb max_errors done.errors && not (is_final done.status))) [
      | inl stop ↦
          gives_up (ground (arith, stop)) (ground (arith, stop, keeps)) (ground (arith, stop))
      | inr go ↦ elim (Bool-cases (is_working done.status)) [
        | inl busy ↦
            let (is, open_still) = working-not-final done.status busy in
            owes (sym keeps.0 ∙ is) (ground (arith, go, open_still)) (ground (arith, go, busy))
        | inr idle ↦
            stands (λ e. not_working done.status idle (keeps.0 ∙ e)) (ground (arith, go, keeps))
              (ground (arith, go, idle))
      ]
    ]

-- a case that waits, with a reason and a next wake-up
pub record WaitsOn (c : CaseFile) : Type 0 where
  pub waits : c.status ≡ waiting
  pub reason : Waiting
  pub given : c.waiting_on ≡ some reason
  pub wakes : is_set c.next_wake_at ≡ true

-- What holds of the file `d` after a turn on the file `c`.
pub record IsSettled (o : Outcome) (c d : CaseFile) : Type 0 where
  pub rests : d.status ≢ working
  pub counted : d.turns ≡ c.turns + 1
  pub goes_on : c.status ≡ working → (d.status ≡ escalated) ⊎ WaitsOn d
  pub third :
      is_final c.status ≡ false
      → is_empty o.error ≡ false
      → max_errors ≤ c.errors + 1
      → d.status ≡ escalated
