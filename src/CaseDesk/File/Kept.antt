-- ===== src/CaseDesk/File/Kept.antt =====
-- Each change of a case file keeps the bounds of its lists.
use ess_mcp.Prelude.{
  ℕ, ◌+◌, ◌≤◌, ◌≡◌, refl, Bool, false, ◌&&◌, Option, none, some, List, [], ◌∷◌, ◌++◌, arith,
  Bool-cases, inl, inr, Text, length, length-last-le, length-append, codes,
}
use ess_mcp.CaseDesk.Event.{Surroundings, CaseEvent, is_empty, or_text, clean}
use ess_mcp.CaseDesk.File.{
  Status, is_final, is_open, CaseFile, Document, max_pending, max_timeline, max_seen, noted, admit,
  new_case, Entry, is_none, noted_if, max_errors,
}
use ess_mcp.CaseDesk.File.Turn.{Outcome, record_turn, escalate, owe_step, finish_turn}
use ess_mcp.CaseDesk.File.Lifecycle.{close_file, final_text}
use ess_mcp.CaseDesk.File.Turns.{turn_ends, gives_up, owes, stands}

abbrev pub or_same : CaseFile → Option CaseFile → CaseFile
or_same c none = c
or_same c (some c') = c'

-- Of a file: at most 24 events are pending, and the timeline has at most 81 entries, one more than
-- MAX_TIMELINE, since an escalation adds one that it does not cut; at most 20 runs; a final case has the
-- time of its end.
pub record IsKept (c : CaseFile) : Type 0 where
  pub pending : length c.pending ≤ max_pending
  pub timeline : length c.timeline ≤ max_timeline + 1
  pub runs : length c.runs ≤ 20
  pub ended : is_final c.status && is_none c.closed_at ≡ false

abbrev pub CaseIsKept : Option CaseFile → Bool → Type 0
CaseIsKept none active = Unit {0}
CaseIsKept (some c) active = IsKept c × (active ≡ is_open c.status)

-- Of the document: at most 400 identifiers of events, and `active` says whether the case is open.
pub record IsValid (d : Document) : Type 0 where
  pub seen : length d.seen ≤ max_seen
  pub case : CaseIsKept d.case d.active

noted-le : (e : Entry) (es : List Entry) → length (noted e es) ≤ max_timeline
unfolding noted
noted-le e es = length-last-le max_timeline (es ++ (e ∷ []))

pub new_case-IsKept :
    (key colleague : Text) (now : ℕ) (e : CaseEvent) → IsKept (new_case key colleague now e)
unfolding new_case is_final
new_case-IsKept key colleague now e = record {
  pending = omega arith;
  timeline = omega arith;
  runs = omega arith;
  ended = refl;
}

pub admit-IsKept :
    (w : Surroundings) (now : ℕ) (e : CaseEvent) (c : CaseFile)
    → IsKept c
    → IsKept (admit w now e c)
unfolding admit is_final
admit-IsKept w now e c h = record {
  pending = length-last-le max_pending (c.pending ++ (e ∷ []));
  timeline = omega (arith, noted-le _ c.timeline);
  runs = h.runs;
  ended = ground (arith, h.ended);
}

noted_if-le :
    (t : Text) (e : Entry) (es : List Entry)
    → length es ≤ max_timeline + 1
    → length (noted_if t e es) ≤ max_timeline + 1
unfolding noted_if noted
noted_if-le [] e es h = h
noted_if-le (c ∷ s) e es h = omega (arith, length-last-le max_timeline (es ++ (e ∷ [])))

noted_if-cut :
    (t : Text) (e : Entry) (es : List Entry)
    → is_empty t ≡ false
    → length (noted_if t e es) ≤ max_timeline
unfolding noted_if noted
noted_if-cut [] e es h = absurd (ground (arith, h))
noted_if-cut (c ∷ s) e es h = length-last-le max_timeline (es ++ (e ∷ []))

record_turn-IsKept :
    (w : Surroundings) (now : ℕ) (o : Outcome) (c : CaseFile)
    → IsKept c
    → IsKept (record_turn w now o c)
unfolding record_turn
record_turn-IsKept w now o c h = record {
  pending = h.pending;
  timeline = noted_if-le _ _ c.timeline h.timeline;
  runs = ground (arith, h.runs, length-last-le 20 (c.runs ++ (o.run_id ∷ [])));
  ended = h.ended;
}

-- What the code does of an error whose text is blank: nothing is noted. It returns no such error itself.
abbrev pub Speaks : Surroundings → Outcome → Type 0
Speaks w o = is_empty o.error ≡ false → is_empty (clean w (or_text o.summary o.error) 600) ≡ false

record_turn-cut :
    (w : Surroundings) (now : ℕ) (o : Outcome) (c : CaseFile)
    → is_empty (clean w (or_text o.summary o.error) 600) ≡ false
    → length (record_turn w now o c).timeline ≤ max_timeline
unfolding record_turn
record_turn-cut w now o c h = noted_if-cut _ _ c.timeline h

record_turn-errors :
    (w : Surroundings) (now : ℕ) (o : Outcome) (c : CaseFile)
    → max_errors ≤ (record_turn w now o c).errors
    → is_empty o.error ≡ false
unfolding record_turn
record_turn-errors w now o c h = ground (arith, h)

escalate-IsKept :
    (now : ℕ) (c : CaseFile) → length c.timeline ≤ max_timeline → IsKept c → IsKept (escalate now c)
unfolding escalate is_final
escalate-IsKept now c n h = record {
  pending = h.pending;
  timeline = omega (arith, n, length-append c.timeline);
  runs = h.runs;
  ended = refl;
}

owe_step-IsKept : (now : ℕ) (o : Outcome) (c : CaseFile) → IsKept c → IsKept (owe_step now o c)
unfolding owe_step is_final
owe_step-IsKept now o c h = record {
  pending = h.pending;
  timeline = h.timeline;
  runs = h.runs;
  ended = refl;
}

pub finish_turn-IsKept :
    (w : Surroundings) (now : ℕ) (o : Outcome) (c : CaseFile)
    → Speaks w o
    → IsKept c
    → IsKept (finish_turn w now o c)
finish_turn-IsKept w now o c speaks h =
    let done = record_turn-IsKept w now o c h in
    elim (turn_ends w now o c) [
      | gives_up many live e ↦ rw e (
          escalate-IsKept now _
            (record_turn-cut w now o c (speaks (record_turn-errors w now o c many))) done)
      | owes was few e ↦ rw e (owe_step-IsKept now o _ done)
      | stands idle why e ↦ rw e done
    ]

abbrev closing_entry : Surroundings → ℕ → Status → Text → CaseFile → Entry
closing_entry w now state note c = record {
  at = now;
  kind = codes "case." ++ final_text state;
  text = clean w note 600;
  who = c.colleague;
}

pub close_file-IsKept :
    (w : Surroundings) (now : ℕ) (state : Status) (note : Text) (c : CaseFile)
    → IsKept c
    → IsKept (or_same c (close_file w now state note c))
unfolding close_file noted
close_file-IsKept w now state note c h = elim (Bool-cases (is_final state)) [
  | inl final ↦
      rw (final, close_file)
        (record {
          pending = h.pending;
          timeline = omega (
            arith,
            length-last-le max_timeline (c.timeline ++ (closing_entry w now state note c ∷ [])),
          );
          runs = h.runs;
          ended = ground arith;
        })
  | inr live ↦ rw (live, close_file) h
]

-- the changes that leave the lists alone
pub lists-IsKept :
    (c d : CaseFile)
    → d.pending ≡ c.pending
    → d.timeline ≡ c.timeline
    → d.runs ≡ c.runs
    → is_final d.status && is_none d.closed_at ≡ false
    → IsKept c
    → IsKept d
lists-IsKept c d p t r e h = record {
  pending = rw p h.pending;
  timeline = rw t h.timeline;
  runs = rw r h.runs;
  ended = e;
}
