-- ===== src/CaseDesk/Examples.antt =====
-- One case: the theorems of CaseDesk at it.
use ess_mcp.Prelude.{
  Text, ◌≡◌, refl, true, false, none, some, List, [], ◌∷◌, ◌++◌, arith, ascii, codes, text_eq,
  member, drop_spaces, lookup,
}
use ess_mcp.Compliance.Identity.{strip}
use ess_mcp.CaseDesk.Bindings.{
  BindingItem, is_bound, has_values, binding_of, is_acceptable, load_items, load_bindings,
}
use ess_mcp.CaseDesk.Event.{Surroundings, hr, servicenow, CaseEvent, clean, is_empty, or_text}
use ess_mcp.CaseDesk.File.{
  working, closed, CaseFile, Document, is_final, is_late, new_case, submit_to, submit_case,
}
use ess_mcp.CaseDesk.File.Turn.{Outcome, take_case}
use ess_mcp.CaseDesk.File.Doorbells.{submit_case_final, admitted_once}
use ess_mcp.CaseDesk.File.Bounds.{
  Write, submitted, taken, turned, closed_as, apply_all, apply_all-IsValid,
}
use ess_mcp.CaseDesk.File.Kept.{IsValid}
use ess_mcp.CaseDesk.Index.{Index, IndexRow, index_row, index_case}
use ess_mcp.CaseDesk.Index.Lookups.{index_case_keeps}
use ess_mcp.CaseDesk.Worker.{Desk, idle}

abbrev pub surroundings : Surroundings
surroundings = record {
  unicode = ascii;
  scrub = λ s. s;
  case_key = λ parts. codes "key";
  document_url = λ s. [];
  printed = λ n. codes "0";
}

abbrev pub event : CaseEvent
event = record {
  source = servicenow;
  kind = codes "updated";
  function = some hr;
  system = codes "servicenow";
  record_id = codes "INC1";
  number = codes "INC0001";
  title = codes "Question";
  text = codes "Where is it?";
  actor = (codes "name", codes "Ada") ∷ [];
  channel = [];
  event_id = codes "e1";
  at = 5;
  explicit = [];
}

abbrev pub file : CaseFile
file = record (new_case (codes "key") (codes "Robin") 3 event) { status = working }

abbrev failed : Outcome
failed = record { error = codes "timeout"; summary = []; run_id = []; tokens = 7 }

abbrev nothing : Document
nothing = record { seen = []; case = none; active = false }

program : Unit {0}
unfolding submit_case submit_to new_case is_final is_late member text_eq
program = tt

is_admitted : (submit_case surroundings (codes "key") true (codes "Robin") 5 event nothing).0 ≡ true
unfolding program
is_admitted = refl

admitted_once_example :
    ((before : List CaseEvent) × ((take_case
          (submit_case surroundings (codes "key") true (codes "Robin") 5 event nothing).1).0
        ≡ before ++ (event ∷ [])))
    × ((take_case
          (take_case
            (submit_case surroundings (codes "key") true (codes "Robin") 5 event nothing).1).1).0
        ≡ [])
    × (submit_case surroundings
          (codes "key")
          true
          (codes "Robin")
          8
          event
          (submit_case surroundings (codes "key") true (codes "Robin") 5 event nothing).1
        ≡ (false, (submit_case surroundings (codes "key") true (codes "Robin") 5 event nothing).1))
admitted_once_example =
    admitted_once surroundings (codes "key") true true (codes "Robin") 5 8 event nothing is_admitted

abbrev ended : CaseFile
ended = record file { status = closed; closed_at = some 6 }

abbrev archive : Document
archive = record { seen = []; case = some ended; active = false }

ended-final : is_final ended.status ≡ true
unfolding program
ended-final = refl

submit_case_final_example :
    (is_late event ≡ true
      → submit_case surroundings (codes "key") false (codes "Robin") 9 event archive
        ≡ (false, archive))
    × ((submit_case surroundings (codes "key") false (codes "Robin") 9 event archive).0 ≡ true
        → (is_late event ≡ false)
          × ((r : CaseFile) × ((submit_case surroundings
                  (codes "key")
                  false
                  (codes "Robin")
                  9
                  event
                  archive).1.case
                ≡ some r)
              × (r.status ≡ working)
              × (r.closed_at ≡ none)))
submit_case_final_example =
    submit_case_final surroundings (codes "key") false (codes "Robin") 9 event archive ended refl
      ended-final

abbrev writes : List Write
writes =
    submitted (codes "key") true (codes "Robin") 5 event
    ∷ taken
    ∷ turned 9 failed
    ∷ closed_as 11 closed (codes "done")
    ∷ []

nothing-IsValid : IsValid nothing
nothing-IsValid = record { seen = omega arith; case = tt }

failed_speaks :
    is_empty failed.error ≡ false
    → is_empty (clean surroundings (or_text failed.summary failed.error) 600) ≡ false
unfolding clean strip drop_spaces
failed_speaks h = refl

apply_all-IsValid_example : IsValid (apply_all surroundings writes nothing)
apply_all-IsValid_example =
    apply_all-IsValid surroundings writes nothing (tt, (tt, (failed_speaks, (tt, tt))))
      nothing-IsValid

abbrev at_work : Desk
at_work = record idle { running = true; working = 1 }

abbrev turned_over : Desk
turned_over = record idle { running = true; draining = 1 }

abbrev empty_index : Index
empty_index = record { cases = []; aliases = [] }

file-live : is_final file.status ≡ false
unfolding is_final
file-live = refl

index_case_keeps_example :
    (lookup file.key (index_case file (codes "servicenow:INC1" ∷ []) empty_index).cases
      ≡ some (index_row file))
    × ((k : Text) (r : IndexRow)
        → text_eq file.key k ≡ false
        → lookup k empty_index.cases ≡ some r
        → is_final r.status ≡ false
        → lookup k (index_case file (codes "servicenow:INC1" ∷ []) empty_index).cases ≡ some r)
    × ((n : Text)
        → member n (codes "servicenow:INC1" ∷ []) ≡ true
        → lookup n (index_case file (codes "servicenow:INC1" ∷ []) empty_index).aliases
          ≡ some file.key)
index_case_keeps_example =
    index_case_keeps file (codes "servicenow:INC1" ∷ []) empty_index tt file-live

abbrev item : BindingItem
item = record {
  supported = true;
  function = codes "hr";
  servers = some (codes "workday" ∷ []);
  name = some (codes "Robin");
  system = some (codes "workday");
  skill = some (codes "people");
  instance_app_id = some [];
  agentic_user_id = some [];
  manager_id = some [];
  queue = some [];
}

loads : load_bindings (item ∷ []) ≡ some (binding_of item ∷ [])
unfolding load_bindings load_items is_acceptable is_bound has_values member text_eq
loads = refl
