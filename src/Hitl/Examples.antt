-- ===== src/Hitl/Examples.antt =====
-- Two questions to one manager: the theorems of Hitl at them.
use ess_mcp.Prelude.{◌≡◌, refl, true, false, [], ◌∷◌, Text, codes, text_eq, lookup}
use ess_mcp.Hitl.Queue.{HumanRequest, Coordinator, answered, is_done}
use ess_mcp.Hitl.Settled.{asks, times_out, replies, act_all, settled_stays}

abbrev manager : Text
manager = codes "manager"

abbrev question : HumanRequest
question = record {
  request_id = codes "q1";
  run_id = codes "run";
  manager_aad_id = manager;
  manager_name = codes "Max";
  question = codes "May I?";
  asked_at = 1;
  asker_name = codes "Ada";
  asker_aad_id = codes "ada";
}

abbrev second : HumanRequest
second = record question { request_id = codes "q2" }

abbrev settled : Coordinator
settled = record { pending = []; by_id = []; futures = (codes "q1", answered (codes "yes")) ∷ [] }

is_settled : is_done (lookup (codes "q1") settled.futures) ≡ true
unfolding lookup text_eq
is_settled = refl

other_id : text_eq second.request_id (codes "q1") ≡ false
unfolding text_eq
other_id = refl

settled_stays_example :
    lookup
      (codes "q1")
      (act_all
        (asks second ∷ times_out (codes "q1") ∷ replies manager (codes "no") ∷ [])
        settled).futures
    ≡ lookup (codes "q1") settled.futures
settled_stays_example =
    settled_stays (codes "q1")
      (asks second ∷ times_out (codes "q1") ∷ replies manager (codes "no") ∷ []) settled
      (other_id, (tt, (tt, tt))) is_settled
