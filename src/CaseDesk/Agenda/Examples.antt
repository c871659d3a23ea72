-- ===== src/CaseDesk/Agenda/Examples.antt =====
-- One run of the timer of a case.
use ess_mcp.Prelude.{true, List, [], ◌∷◌, ◌++◌, codes}
use ess_mcp.CaseDesk.File.{CaseFile}
use ess_mcp.CaseDesk.File.Bounds.{submitted, woken}
use ess_mcp.CaseDesk.Index.{agenda_entry}
use ess_mcp.CaseDesk.Agenda.{Timed, looks, write_file, pushed, unborn}
use ess_mcp.CaseDesk.Examples.{surroundings, event, file}

abbrev opened : Timed
opened = write_file surroundings (submitted (codes "key") true (codes "Robin") 5 event) unborn

abbrev asleep : Timed
asleep = write_file surroundings (woken 6 9 (codes "ask again")) opened

abbrev first_copy : List CaseFile → CaseFile
first_copy [] = file
first_copy (c ∷ cs) = c

abbrev other_copies : List CaseFile → List CaseFile
other_copies [] = []
other_copies (c ∷ cs) = cs

abbrev sleeping : CaseFile
sleeping = first_copy asleep.unindexed

abbrev indexed : Timed
indexed = record asleep {
  agenda = pushed (agenda_entry sleeping) asleep.agenda;
  unindexed = [] ++ other_copies asleep.unindexed;
}

abbrev popped : Timed
popped = record indexed { agenda = [] ++ []; timer = looks (9, codes "key") }
