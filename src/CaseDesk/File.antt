-- ===== src/CaseDesk/File.antt =====
-- demo_agent/case_desk.py: the file of one case, and each write of it. A transform reads the clock once,
-- as `now`.
pub mod Turn
pub mod Lifecycle
pub mod Turns
pub mod Kept
pub mod Bounds
pub mod Doorbells
use ess_mcp.Prelude.{
  ℕ, zero, suc, ◌+◌, ◌-◌, ◌≤◌, ◌≡◌, refl, Bool, true, false, not, ◌&&◌, ◌||◌, Option, none, some,
  List, [], ◌∷◌, ◌++◌, arith, ltb, leb, ◌==◌, if◌then◌else◌, length, last, take, Text, codes,
  text_eq, member, Dict, lookup, Result, ok, err,
}
use ess_mcp.CaseDesk.Event.{
  Source, operator, timer, review, approval, Function, Surroundings, CaseEvent, clean, is_empty,
  or_text, text_at, name_of,
}

abbrev pub max_pending : ℕ
max_pending = 24

abbrev pub max_timeline : ℕ
max_timeline = 80

abbrev pub max_seen : ℕ
max_seen = 400

abbrev pub max_errors : ℕ
max_errors = 3

pub data Status : Type 0 where
  new working waiting resolved closed escalated cancelled : Status

unfoldable pub is_final : Status → Bool
is_final closed = true
is_final escalated = true
is_final cancelled = true
is_final _ = false

unfoldable pub is_open : Status → Bool
is_open new = true
is_open working = true
is_open waiting = true
is_open resolved = true
is_open _ = false

pub data WaitFor : Type 0 where
  requester approval_of participants vendor confirmation other : WaitFor

unfoldable pub same_wait : WaitFor → WaitFor → Bool
same_wait requester requester = true
same_wait approval_of approval_of = true
same_wait participants participants = true
same_wait vendor vendor = true
same_wait confirmation confirmation = true
same_wait other other = true
same_wait _ _ = false

pub record Waiting : Type 0 where
  pub waits_for : WaitFor
  pub reason : Text
  pub since : ℕ
  pub follow_ups : ℕ

pub record Entry : Type 0 where
  pub at : ℕ
  pub kind : Text
  pub text : Text
  pub who : Text

pub record SourceRecord : Type 0 where
  pub system : Text
  pub id : Text
  pub number : Text

pub record CaseFile : Type 0 where
  pub key : Text
  pub function : Option Function
  pub status : Status
  pub title : Text
  pub source : Option SourceRecord
  pub requester : Dict Text
  pub colleague : Text
  pub waiting_on : Option Waiting
  pub next_wake_at : Option ℕ
  pub wake_reason : Text
  pub turns : ℕ
  pub tokens : ℕ
  pub errors : ℕ
  pub pending : List CaseEvent
  pub timeline : List Entry
  pub runs : List Text
  pub resolution : Text
  pub created_at : ℕ
  pub updated_at : ℕ
  pub closed_at : Option ℕ

-- what is stored of one case: `state["seen"]`, `state["tasks"].get("case")` and `state["active"]`
pub record Document : Type 0 where
  pub seen : List Text
  pub case : Option CaseFile
  pub active : Bool

-- `timeline.append(…)` and `del timeline[:-MAX_TIMELINE]`
unfoldable pub noted : Entry → List Entry → List Entry
noted e es = last max_timeline (es ++ (e ∷ []))

-- the same, where the text is not empty
unfoldable pub noted_if : Text → Entry → List Entry → List Entry
unfolding noted
noted_if [] e es = es
noted_if (c ∷ s) e es = noted e es

unfoldable pub source_record : CaseEvent → Option SourceRecord
source_record e =
    if is_empty e.record_id
    then none
    else some (record { system = e.system; id = e.record_id; number = e.number })

-- `_new_case`, for the colleague of that name
unfoldable pub new_case : Text → Text → ℕ → CaseEvent → CaseFile
unfolding source_record
new_case key colleague now e = record {
  key = key;
  function = e.function;
  status = new;
  title = or_text e.title (or_text e.number (codes "New case"));
  source = source_record e;
  requester = e.actor;
  colleague = colleague;
  waiting_on = none;
  next_wake_at = none;
  wake_reason = [];
  turns = 0;
  tokens = 0;
  errors = 0;
  pending = [];
  timeline = [];
  runs = [];
  resolution = [];
  created_at = now;
  updated_at = now;
  closed_at = none;
}

-- `event.kind not in {"reopen", "created"} and event.source != "operator"`
unfoldable pub is_late : CaseEvent → Bool
is_late e =
    not (member e.kind (codes "reopen" ∷ codes "created" ∷ []))
    && (elim e.source [ operator ↦ false | _ ↦ true ])

abbrev names_requester : CaseEvent → Bool
names_requester e = elim e.source [ timer ↦ false | review ↦ false | approval ↦ false | _ ↦ true ]

abbrev pub is_none : {A : Type 0} → Option A → Bool
is_none none = true
is_none (some a) = false

abbrev no_entries : Dict Text → Bool
no_entries [] = true
no_entries (x ∷ d) = false

-- the event on the file of its case
unfoldable pub admit : Surroundings → ℕ → CaseEvent → CaseFile → CaseFile
unfolding source_record
admit w now e c = record c {
  status = if is_final c.status then working else c.status;
  closed_at = if is_final c.status then none else c.closed_at;
  pending = last max_pending (c.pending ++ (e ∷ []));
  source = if is_none c.source then source_record e else c.source;
  requester =
      if no_entries c.requester && not (no_entries e.actor) && names_requester e
      then e.actor
      else c.requester;
  timeline =
      noted
        (record {
          at = e.at;
          kind = name_of e.source ++ (codes "." ++ e.kind);
          text = clean w (or_text e.text e.title) 300;
          who = text_at (codes "name") e.actor;
        })
        c.timeline;
  updated_at = now;
}

-- the event of `submit` on an existing case, or on the new one; whether it is admitted
unfoldable pub submit_to : Surroundings → ℕ → CaseEvent → CaseFile → Document → Bool × Document
submit_to w now e c d = if is_final c.status && is_late e then (false, d) else (
  true,
  record {
    seen = last max_seen (d.seen ++ (e.event_id ∷ []));
    case = some (admit w now e c);
    active = true;
  },
)

-- the transform of `submit`; `colleague` is the one that is bound to the function of a fresh case
unfoldable pub submit_case :
    Surroundings → Text → Bool → Text → ℕ → CaseEvent → Document → Bool × Document
submit_case w key fresh colleague now e d =
    if member e.event_id d.seen then (false, d) else (elim d.case [
      | some c ↦ submit_to w now e c d
      | none ↦ if not fresh then (false, d) else submit_to w now e (new_case key colleague now e) d
    ])
