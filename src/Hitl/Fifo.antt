-- ===== src/Hitl/Fifo.antt =====
-- Questions to one manager are answered in the order in which they were asked.
use ess_mcp.Prelude.{◌≡◌, Option, none, some, List, [], ◌∷◌, Text}
use ess_mcp.Hitl.Queue.{HumanRequest, Coordinator, request, resolve}

-- The questions of a list, one after the other.
abbrev pub request_all : List HumanRequest → Coordinator → Coordinator
request_all [] s = s
request_all (r ∷ rs) s = request_all rs (request r s)

-- What `resolve` returns for the replies of a manager, one after the other.
abbrev pub resolve_all : Text → List Text → Coordinator → List (Option HumanRequest)
resolve_all m [] s = []
resolve_all m (t ∷ ts) s = let (r, s') = resolve m t s in r ∷ resolve_all m ts s'

-- The first requests of a queue, one for each reply, and nothing when there are no more.
abbrev pub firsts : List Text → List HumanRequest → List (Option HumanRequest)
firsts [] q = []
firsts (t ∷ ts) [] = none ∷ firsts ts []
firsts (t ∷ ts) (r ∷ q) = some r ∷ firsts ts q

abbrev pub AllFor : Text → List HumanRequest → Type 0
AllFor m [] = Unit {0}
AllFor m (r ∷ rs) = (r.manager_aad_id ≡ m) × AllFor m rs
