-- ===== src/CaseDesk/File/Doorbells.antt =====
-- Which events reach a case, and how often.
use ess_mcp.Prelude.{
  ℕ, ◌+◌, ◌-◌, ◌≡◌, refl, ap, ◌∙◌, Bool, true, false, ◌&&◌, ◌||◌, none, some, List, [], ◌∷◌, ◌++◌,
  arith, Bool-cases, Option-cases, inl, inr, Text, text_eq_refl, member, length, last, last-append,
  drop,
}
use ess_mcp.CaseDesk.Event.{Surroundings, CaseEvent}
use ess_mcp.CaseDesk.File.{
  working, is_final, CaseFile, Document, max_pending, max_seen, is_late, admit, new_case, submit_to,
  submit_case,
}
use ess_mcp.CaseDesk.File.Turn.{take_case, no_events}

member-any : (t : Text) (ts us : List Text) → member t (ts ++ us) ≡ (member t ts || member t us)
unfolding member
member-any t [] us = refl
member-any t (s ∷ ts) us = ground (arith, member-any t ts us)

remembered : (e : Text) (seen : List Text) → member e (last max_seen (seen ++ (e ∷ []))) ≡ true
unfolding member
remembered e seen =
    rw (last-append max_seen seen (e ∷ []) (omega arith)) (
      ground
        (arith, member-any e (drop (length seen + 1 - max_seen) seen) (e ∷ []), text_eq_refl e))

submit_to-admitted :
    (w : Surroundings) (now : ℕ) (e : CaseEvent) (c : CaseFile) (d : Document)
    → (submit_to w now e c d).0 ≡ true
    → (is_final c.status && is_late e ≡ false)
      × ((submit_to w now e c d).1.seen ≡ last max_seen (d.seen ++ (e.event_id ∷ [])))
      × ((submit_to w now e c d).1.case ≡ some (admit w now e c))
      × ((submit_to w now e c d).1.active ≡ true)
unfolding submit_to
submit_to-admitted w now e c d h = elim (Bool-cases (is_final c.status && is_late e)) [
  | inl late ↦ absurd (ground (arith, h, late))
  | inr fine ↦ rw fine (refl, refl, refl, refl)
]

-- the file that an event meets
abbrev pub met : Text → Text → ℕ → CaseEvent → Document → CaseFile
met key colleague now e d = elim d.case [ none ↦ new_case key colleague now e | some c ↦ c ]

submit_case-admitted :
    (w : Surroundings) (key : Text) (fresh : Bool) (colleague : Text) (now : ℕ) (e : CaseEvent)
    (d : Document)
    → (submit_case w key fresh colleague now e d).0 ≡ true
    → submit_case w key fresh colleague now e d ≡ submit_to w now e (met key colleague now e d) d
unfolding submit_case
submit_case-admitted w key fresh colleague now e d h = ground (arith, h)

submit_case-known :
    (w : Surroundings) (key : Text) (fresh : Bool) (colleague : Text) (now : ℕ) (e : CaseEvent)
    (d : Document)
    → member e.event_id d.seen ≡ true
    → submit_case w key fresh colleague now e d ≡ (false, d)
unfolding submit_case
submit_case-known w key fresh colleague now e d h = rw (h, submit_case) refl

-- the document after an admitted event
submit_case-stored :
    (w : Surroundings) (key : Text) (fresh : Bool) (colleague : Text) (now : ℕ) (e : CaseEvent)
    (d : Document)
    → (submit_case w key fresh colleague now e d).0 ≡ true
    → (is_final (met key colleague now e d).status && is_late e ≡ false)
      × ((submit_case w key fresh colleague now e d).1.seen
          ≡ last max_seen (d.seen ++ (e.event_id ∷ [])))
      × ((submit_case w key fresh colleague now e d).1.case
          ≡ some (admit w now e (met key colleague now e d)))
      × ((submit_case w key fresh colleague now e d).1.active ≡ true)
submit_case-stored w key fresh colleague now e d h =
    let same = submit_case-admitted w key fresh colleague now e d h in
    rw same (submit_to-admitted w now e (met key colleague now e d) d (rw (← same) h))

submit_case_once :
    (w : Surroundings) (key : Text) (fresh again : Bool) (colleague : Text) (now later : ℕ)
    (e : CaseEvent) (d : Document)
    → (submit_case w key fresh colleague now e d).0 ≡ true
    → submit_case w key again colleague later e (submit_case w key fresh colleague now e d).1
      ≡ (false, (submit_case w key fresh colleague now e d).1)
submit_case_once w key fresh again colleague now later e d h =
    submit_case-known w key again colleague later e (submit_case w key fresh colleague now e d).1
      (rw ((submit_case-stored w key fresh colleague now e d h).1) (remembered e.event_id d.seen))

-- A closed, escalated or cancelled case ignores an event that is no reopening, no creation and no
-- operator's; it is revived by one that is admitted: then it is working, and not closed any more.
pub submit_case_final :
    (w : Surroundings) (key : Text) (fresh : Bool) (colleague : Text) (now : ℕ) (e : CaseEvent)
    (d : Document) (c : CaseFile)
    → d.case ≡ some c
    → is_final c.status ≡ true
    → (is_late e ≡ true → submit_case w key fresh colleague now e d ≡ (false, d))
      × ((submit_case w key fresh colleague now e d).0 ≡ true
          → (is_late e ≡ false)
            × ((r : CaseFile) × ((submit_case w key fresh colleague now e d).1.case ≡ some r)
                × (r.status ≡ working)
                × (r.closed_at ≡ none)))
unfolding submit_case submit_to admit
submit_case_final w key fresh colleague now e d c there f = (
  λ late. ground (arith, there, f, late),
  λ h.
      let stored = submit_case-stored w key fresh colleague now e d h in
      let same : met key colleague now e d ≡ c = ground (arith, there) in
      (
        ground (arith, stored.0, same, f),
        (
          admit w now e c,
          stored.2 ∙ ap (λ (x : CaseFile). some (admit w now e x)) same,
          ground (arith, f),
          ground (arith, f),
        ),
      ),
)

no_events-append : (es : List CaseEvent) (e : CaseEvent) → no_events (es ++ (e ∷ [])) ≡ false
no_events-append [] e = refl
no_events-append (f ∷ es) e = refl

take_case-present :
    (d : Document) (c : CaseFile)
    → d.case ≡ some c
    → no_events c.pending ≡ false
    → (take_case d).0 ≡ c.pending
unfolding take_case
take_case-present d c h n = rw (h, take_case, n) refl

take_case-twice : (d : Document) → (take_case (take_case d).1).0 ≡ []
unfolding take_case
take_case-twice d = elim (Option-cases d.case) [
  | inl absent ↦ ground (arith, absent)
  | inr (c, present) ↦ elim (Bool-cases (no_events c.pending)) [
    | inl idle ↦ ground (arith, present, idle)
    | inr busy ↦ ground (arith, present, busy)
  ]
]

take_case-submit_case :
    (w : Surroundings) (key : Text) (fresh : Bool) (colleague : Text) (now : ℕ) (e : CaseEvent)
    (d : Document)
    → (submit_case w key fresh colleague now e d).0 ≡ true
    → ((before : List CaseEvent) × ((take_case (submit_case w key fresh colleague now e d).1).0
          ≡ before ++ (e ∷ [])))
      × ((take_case (take_case (submit_case w key fresh colleague now e d).1).1).0 ≡ [])
unfolding admit
take_case-submit_case w key fresh colleague now e d h =
    let stored = submit_case-stored w key fresh colleague now e d h in
    let c = met key colleague now e d in
    let kept = last-append max_pending c.pending (e ∷ []) (omega arith) in
    (
      (
        drop (length c.pending + 1 - max_pending) c.pending,
        take_case-present (submit_case w key fresh colleague now e d).1 (admit w now e c) stored.2
              (rw kept (no_events-append (drop (length c.pending + 1 - max_pending) c.pending) e))
            ∙ kept,
      ),
      take_case-twice (submit_case w key fresh colleague now e d).1,
    )

-- An event that is admitted is worked on by the turn that takes the case next, as its last event, and
-- after that nothing is pending; the delivery that follows does not admit it a second time, and leaves
-- the document as it is.
pub admitted_once :
    (w : Surroundings) (key : Text) (fresh again : Bool) (colleague : Text) (now later : ℕ)
    (e : CaseEvent) (d : Document)
    → (submit_case w key fresh colleague now e d).0 ≡ true
    → ((before : List CaseEvent) × ((take_case (submit_case w key fresh colleague now e d).1).0
          ≡ before ++ (e ∷ [])))
      × ((take_case (take_case (submit_case w key fresh colleague now e d).1).1).0 ≡ [])
      × (submit_case w key again colleague later e (submit_case w key fresh colleague now e d).1
          ≡ (false, (submit_case w key fresh colleague now e d).1))
admitted_once w key fresh again colleague now later e d h =
    let (worked, empty) = take_case-submit_case w key fresh colleague now e d h in
    (worked, empty, submit_case_once w key fresh again colleague now later e d h)
