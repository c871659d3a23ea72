-- ===== src/CaseDesk/Index.antt =====
-- demo_agent/case_desk.py: the index of all cases, the names that lead to a case, and the case that an
-- event belongs to.
pub mod Lookups
use ess_mcp.Prelude.{
  ℕ, ◌+◌, ◌-◌, ◌*◌, ◌≤◌, ◌≡◌, Bool, true, false, not, ◌&&◌, ◌||◌, Option, none, some, List, [], ◌∷◌,
  ◌++◌, ltb, leb, ◌==◌, if◌then◌else◌, length, take, Text, codes, text_eq, Dict, lookup, insert,
  remove,
}
use ess_mcp.Approvals.Tasks.{insert_sorted}
use ess_mcp.CaseDesk.Event.{
  Source, timer, approval, review, Function, Surroundings, CaseEvent, aliases, is_empty, or_text,
  text_at, name_of,
}
use ess_mcp.CaseDesk.File.{Status, is_final, is_open, WaitFor, SourceRecord, Waiting, CaseFile}
use ess_mcp.CaseDesk.File.Turn.{is_set}

abbrev pub max_index : ℕ
max_index = 400

pub record IndexRow : Type 0 where
  pub function : Option Function
  pub status : Status
  pub title : Text
  pub number : Text
  pub system : Text
  pub requester : Text
  pub updated_at : ℕ
  pub created_at : ℕ
  pub next_wake_at : ℕ
  pub waiting : Option WaitFor

-- the index, and the keys that aliases name
pub record Index : Type 0 where
  pub cases : Dict IndexRow
  pub aliases : Dict Text

abbrev or_zero : Option ℕ → ℕ
or_zero none = 0
or_zero (some n) = n

-- the row of `_index`, without its mark of a held document
unfoldable pub index_row : CaseFile → IndexRow
index_row c = record {
  function = c.function;
  status = c.status;
  title = take 160 c.title;
  number = elim c.source [ none ↦ [] | some s ↦ s.number ];
  system = elim c.source [ none ↦ [] | some s ↦ s.system ];
  requester = text_at (codes "name") c.requester;
  updated_at = c.updated_at;
  created_at = c.created_at;
  next_wake_at = or_zero c.next_wake_at;
  waiting = elim c.waiting_on [ none ↦ none | some x ↦ some x.waits_for ];
}

-- the final cases, the longest unchanged first
unfoldable pub evictable : Dict IndexRow → List (ℕ × Text)
evictable [] = []
evictable ((k, r) ∷ d) =
    let rest = evictable d in
    if is_final r.status then insert_sorted (r.updated_at, k) rest else rest

unfoldable pub remove_keys : {V : Type 0} → List (ℕ × Text) → Dict V → Dict V
remove_keys [] d = d
remove_keys ((at, k) ∷ ks) d = remove_keys ks (remove k d)

-- `if len(cases) > MAX_INDEX: …`
unfoldable pub evict : Dict IndexRow → Dict IndexRow
evict d =
    if ltb max_index (length d)
    then remove_keys (take (length d - max_index) (evictable d)) d
    else d

unfoldable pub add_names : Text → List Text → Dict Text → Dict Text
add_names key [] d = d
add_names key (n ∷ ns) d = add_names key ns (insert n key d)

abbrev pub is_listed : Option IndexRow → Bool
is_listed none = false
is_listed (some r) = true

-- the names of the cases that are listed
unfoldable pub live_names : Dict IndexRow → Dict Text → Dict Text
live_names cases [] = []
live_names cases ((n, k) ∷ d) =
    let rest = live_names cases d in if is_listed (lookup k cases) then (n, k) ∷ rest else rest

-- the transform of `_index`
unfoldable pub index_case : CaseFile → List Text → Index → Index
index_case c names i =
    let cases = evict (insert c.key (index_row c) i.cases) in
    let named = add_names c.key names i.aliases in
    record {
      cases = cases;
      aliases = if ltb (max_index * 3) (length named) then live_names cases named else named;
    }

-- what `_index` pushes on the agenda of timers
unfoldable pub agenda_entry : CaseFile → Option (ℕ × Text)
agenda_entry c =
    if is_set c.next_wake_at && is_open c.status then some (or_zero c.next_wake_at, c.key) else none

first_alias : List Text → Dict Text → Option Text
first_alias [] d = none
first_alias (n ∷ ns) d =
    let rest = first_alias ns d in elim (lookup n d) [ some k ↦ some k | none ↦ rest ]

abbrev speaks_of_cases : Source → Bool
speaks_of_cases timer = false
speaks_of_cases approval = false
speaks_of_cases review = false
speaks_of_cases _ = true

abbrev function_text : Option Function → Text
function_text none = []
function_text (some Function.it) = codes "it"
function_text (some Function.hr) = codes "hr"
function_text (some Function.compliance) = codes "compliance"
function_text (some Function.supply) = codes "supply"

-- what a fresh case is keyed by
unfoldable pub anchor : CaseEvent → Text
anchor e =
    if not (is_empty e.system) && not (is_empty e.record_id)
    then e.system ++ (codes ":" ++ e.record_id)
    else (let thread =
          if text_eq (text_at (codes "kind") e.channel) (codes "email")
          then text_at (codes "conversationId") e.channel
          else [] in
        name_of e.source
        ++ (codes ":"
            ++ or_text thread (or_text (text_at (codes "messageId") e.channel) e.event_id)))

-- `_resolve`: the key of the case, and whether it may be created
unfoldable pub resolve_event : Surroundings → Text → Index → CaseEvent → Text × Bool
unfolding first_alias
resolve_event w tenant i e =
    if not (is_empty e.explicit)
    then (e.explicit, false)
    else (elim (first_alias (aliases w e) i.aliases) [
      | some k ↦ (k, false)
      | none ↦
          if not (speaks_of_cases e.source)
          then ([], false)
          else (w.case_key (tenant ∷ function_text e.function ∷ anchor e ∷ []), true)
    ])

-- the cases of `resume_pending`: the listed ones that are new or working
unfoldable pub to_resume : Dict IndexRow → List Text
to_resume [] = []
to_resume ((k, r) ∷ d) =
    let rest = to_resume d in
    elim r.status [ Status.new ↦ k ∷ rest | Status.working ↦ k ∷ rest | _ ↦ rest ]
