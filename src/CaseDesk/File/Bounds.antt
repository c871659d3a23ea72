-- ===== src/CaseDesk/File/Bounds.antt =====
-- The invariant of the stored case under every write of it.
use ess_mcp.CaseDesk.File.Kept.{
  IsKept, IsValid, Speaks, admit-IsKept, close_file-IsKept, finish_turn-IsKept, lists-IsKept,
  new_case-IsKept, or_same,
}
use ess_mcp.Prelude.{
  ℕ, ◌≡◌, refl, sym, ◌∙◌, Bool, true, false, ◌&&◌, Option, none, some, List, [], ◌∷◌, ◌++◌, arith,
  if◌then◌else◌, Bool-cases, inl, inr, Text, length-last-le, member,
}
use ess_mcp.CaseDesk.Event.{Surroundings, CaseEvent}
use ess_mcp.CaseDesk.File.{
  Status, is_final, is_open, WaitFor, CaseFile, Document, max_seen, admit, new_case, submit_to,
  submit_case, is_late,
}
use ess_mcp.CaseDesk.File.Turn.{Outcome, take_case, no_events, begins_turn, finish_turn}
use ess_mcp.CaseDesk.File.Lifecycle.{wait, wake_at, resolve, close_file, update_case, clear_wake}

-- The writes of a case.
pub data Write : Type 0 where
  submitted : Text → Bool → Text → ℕ → CaseEvent → Write
  taken : Write
  turned : ℕ → Outcome → Write
  waited : ℕ → WaitFor → Text → Option ℕ → Write
  woken : ℕ → ℕ → Text → Write
  resolved_as : ℕ → Text → Option ℕ → Write
  closed_as : ℕ → Status → Text → Write
  wake_cleared : ℕ → Write

-- what is stored after a write that raises: as before
abbrev or_before : Document → Option Document → Document
or_before d none = d
or_before d (some d') = d'

unfoldable pub apply : Surroundings → Write → Document → Document
apply w (submitted key fresh colleague now e) d = (submit_case w key fresh colleague now e d).1
apply w taken d = (take_case d).1
apply w (turned now o) d = or_before d (update_case now (finish_turn w now o) d)
apply w (waited now what reason after) d =
    or_before d (update_case now (wait w now what reason after) d)
apply w (woken now at reason) d = or_before d (update_case now (wake_at w at reason) d)
apply w (resolved_as now resolution within) d =
    or_before d (update_case now (resolve w now resolution within) d)
apply w (closed_as now state note) d =
    if is_final state
    then or_before d (update_case now (λ c. or_same c (close_file w now state note c)) d)
    else d
apply w (wake_cleared now) d = or_before d (update_case now clear_wake d)

abbrev pub apply_all : Surroundings → List Write → Document → Document
apply_all w [] d = d
apply_all w (x ∷ xs) d = apply_all w xs (apply w x d)

abbrev parts : List Text → Option CaseFile → Bool → Document
parts seen case active = record { seen = seen; case = case; active = active }

update_parts-IsValid :
    (now : ℕ) (change : CaseFile → CaseFile) (seen : List Text) (o : Option CaseFile)
    (active : Bool)
    → ((c : CaseFile) → IsKept c → IsKept (change c))
    → IsValid (parts seen o active)
    → IsValid (or_before (parts seen o active) (update_case now change (parts seen o active)))
unfolding update_case
update_parts-IsValid now change seen none active f h = h
update_parts-IsValid now change seen (some c) active f h =
    let kept = f c h.case.0 in
    record {
      seen = h.seen;
      case = (
        record {
          pending = kept.pending;
          timeline = kept.timeline;
          runs = kept.runs;
          ended = kept.ended;
        },
        refl,
      );
    }

update_case-IsValid :
    (now : ℕ) (change : CaseFile → CaseFile) (d : Document)
    → ((c : CaseFile) → IsKept c → IsKept (change c))
    → IsValid d
    → IsValid (or_before d (update_case now change d))
update_case-IsValid now change d f h = update_parts-IsValid now change d.seen d.case d.active f h

begins_turn-same :
    (s : Status) → (is_open (begins_turn s) ≡ is_open s) × (is_final (begins_turn s) ≡ is_final s)
unfolding begins_turn is_open is_final
begins_turn-same s = ground arith

take_parts-IsValid :
    (seen : List Text) (o : Option CaseFile) (active : Bool)
    → IsValid (parts seen o active)
    → IsValid (take_case (parts seen o active)).1
unfolding take_case
take_parts-IsValid seen none active h = h
take_parts-IsValid seen (some c) active h =
    let same = begins_turn-same c.status in
    elim (Bool-cases (no_events c.pending)) [
      | inl idle ↦ rw (idle, take_case) h
      | inr busy ↦
          rw (busy, take_case)
            (record {
              seen = h.seen;
              case = (
                record {
                  pending = omega arith;
                  timeline = h.case.0.timeline;
                  runs = h.case.0.runs;
                  ended = rw same.1 h.case.0.ended;
                },
                h.case.1 ∙ sym same.0,
              );
            })
    ]

admit-open :
    (w : Surroundings) (now : ℕ) (e : CaseEvent) (c : CaseFile)
    → true ≡ is_open (admit w now e c).status
unfolding admit is_open is_final
admit-open w now e c = ground arith

submit_to-IsValid :
    (w : Surroundings) (now : ℕ) (e : CaseEvent) (c : CaseFile) (d : Document)
    → IsKept c
    → IsValid d
    → IsValid (submit_to w now e c d).1
unfolding submit_to
submit_to-IsValid w now e c d k h = elim (Bool-cases (is_final c.status && is_late e)) [
  | inl late ↦ rw (late, submit_to) h
  | inr fine ↦
      rw (fine, submit_to)
        (record {
          seen = length-last-le max_seen (d.seen ++ (e.event_id ∷ []));
          case = (admit-IsKept w now e c k, admit-open w now e c);
        })
]

-- an event that is not known
submit_unknown-IsValid :
    (w : Surroundings) (key : Text) (fresh : Bool) (colleague : Text) (now : ℕ) (e : CaseEvent)
    (seen : List Text) (o : Option CaseFile) (active : Bool)
    → member e.event_id seen ≡ false
    → IsValid (parts seen o active)
    → IsValid (submit_case w key fresh colleague now e (parts seen o active)).1
unfolding submit_case
submit_unknown-IsValid w key true colleague now e seen none active u h =
    rw (u, submit_case)
      (submit_to-IsValid w now e (new_case key colleague now e) _
        (new_case-IsKept key colleague now e) h)
submit_unknown-IsValid w key false colleague now e seen none active u h = rw (u, submit_case) h
submit_unknown-IsValid w key fresh colleague now e seen (some c) active u h =
    rw (u, submit_case) (submit_to-IsValid w now e c _ h.case.0 h)

submit_parts-IsValid :
    (w : Surroundings) (key : Text) (fresh : Bool) (colleague : Text) (now : ℕ) (e : CaseEvent)
    (seen : List Text) (o : Option CaseFile) (active : Bool)
    → IsValid (parts seen o active)
    → IsValid (submit_case w key fresh colleague now e (parts seen o active)).1
unfolding submit_case
submit_parts-IsValid w key fresh colleague now e seen o active h =
    elim (Bool-cases (member e.event_id seen)) [
      | inl known ↦ rw (known, submit_case) h
      | inr unseen ↦ submit_unknown-IsValid w key fresh colleague now e seen o active unseen h
    ]

wait-IsKept :
    (w : Surroundings) (now : ℕ) (what : WaitFor) (reason : Text) (after : Option ℕ) (c : CaseFile)
    → IsKept c
    → IsKept (wait w now what reason after c)
unfolding wait is_final
wait-IsKept w now what reason after c h = lists-IsKept c _ refl refl refl refl h

resolve-IsKept :
    (w : Surroundings) (now : ℕ) (resolution : Text) (within : Option ℕ) (c : CaseFile)
    → IsKept c
    → IsKept (resolve w now resolution within c)
unfolding resolve is_final
resolve-IsKept w now resolution within c h = lists-IsKept c _ refl refl refl refl h

wake_at-IsKept :
    (w : Surroundings) (at : ℕ) (reason : Text) (c : CaseFile)
    → IsKept c
    → IsKept (wake_at w at reason c)
unfolding wake_at
wake_at-IsKept w at reason c h = lists-IsKept c _ refl refl refl h.ended h

clear_wake-IsKept : (c : CaseFile) → IsKept c → IsKept (clear_wake c)
unfolding clear_wake
clear_wake-IsKept c h = lists-IsKept c _ refl refl refl h.ended h

abbrev pub WriteSpeaks : Surroundings → Write → Type 0
WriteSpeaks w (turned now o) = Speaks w o
WriteSpeaks w _ = Unit {0}

abbrev pub AllSpeak : Surroundings → List Write → Type 0
AllSpeak w [] = Unit {0}
AllSpeak w (x ∷ xs) = WriteSpeaks w x × AllSpeak w xs

apply-IsValid :
    (w : Surroundings) (x : Write) (d : Document)
    → WriteSpeaks w x
    → IsValid d
    → IsValid (apply w x d)
unfolding apply
apply-IsValid w (submitted key fresh colleague now e) d s h =
    submit_parts-IsValid w key fresh colleague now e d.seen d.case d.active h
apply-IsValid w taken d s h = take_parts-IsValid d.seen d.case d.active h
apply-IsValid w (turned now o) d s h =
    update_case-IsValid now (finish_turn w now o) d (λ c k. finish_turn-IsKept w now o c s k) h
apply-IsValid w (waited now what reason after) d s h =
    update_case-IsValid now (wait w now what reason after) d (wait-IsKept w now what reason after) h
apply-IsValid w (woken now at reason) d s h =
    update_case-IsValid now (wake_at w at reason) d (wake_at-IsKept w at reason) h
apply-IsValid w (resolved_as now resolution within) d s h =
    update_case-IsValid now (resolve w now resolution within) d
      (resolve-IsKept w now resolution within) h
apply-IsValid w (closed_as now state note) d s h = elim (Bool-cases (is_final state)) [
  | inl final ↦
      rw (final, apply)
        (update_case-IsValid now (λ c. or_same c (close_file w now state note c)) d
          (close_file-IsKept w now state note) h)
  | inr live ↦ rw (live, apply) h
]
apply-IsValid w (wake_cleared now) d s h = update_case-IsValid now clear_wake d clear_wake-IsKept h

-- Over any sequence of writes of a case whose failed turns say what failed: at most 24 events are
-- pending, the timeline has at most 81 entries, at most 400 identifiers of events are kept and at most 20
-- runs; a final case has the time of its end; and `active` says whether the case is open.
pub apply_all-IsValid :
    (w : Surroundings) (xs : List Write) (d : Document)
    → AllSpeak w xs
    → IsValid d
    → IsValid (apply_all w xs d)
apply_all-IsValid w [] d s h = h
apply_all-IsValid w (x ∷ xs) d s h =
    apply_all-IsValid w xs (apply w x d) s.1 (apply-IsValid w x d s.0 h)
