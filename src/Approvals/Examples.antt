-- ===== src/Approvals/Examples.antt =====
-- One gate, one request and its requester: tests, and the theorems of Approvals at them.
use ess_mcp.Prelude.{
  ℕ, ◌-◌, ◌≤◌, ◌≡◌, refl, true, false, none, some, [], ◌∷◌, Text, codes, text_eq, member, lower,
  IsDict, lookup, insert, ok,
}
use ess_mcp.Memory.State.{ChatScope, same_scope, utf8_size}
use ess_mcp.Memory.Saving.{saved, store_update, left_by}
use ess_mcp.Compliance.Identity.{is_guid}
use ess_mcp.Approvals.Identity.{
  Actor, Identity, approve, guid, scope_allowed, actor, after_prefix, parse_command,
}
use ess_mcp.Approvals.Json.{
  object, end, spend, enter, visit, visit_fields, max_argument_bytes, max_json_depth,
}
use ess_mcp.Approvals.Json.Size.{values, nesting}
use ess_mcp.Approvals.Call.{Encoding, servers, is_tool_name, is_object, check_text, validated_call}
use ess_mcp.Approvals.Call.Checked.{validated_call-ok}
use ess_mcp.Approvals.Record.{
  Request, pending, unknown, is_pending, is_executing, validated_request, is_digest,
}
use ess_mcp.Approvals.Tasks.{Tasks, Proposal, Decision, decide_request, decide_tasks, finish_tasks}
use ess_mcp.Approvals.Change.{decided, cleared, apply_all, claims}
use ess_mcp.Approvals.Change.Once.{request_claims_once}
use ess_mcp.Approvals.Change.Unknown.{unknown_kept}
use ess_mcp.Approvals.Gate.{Gate, Turn, returns, returns_none, finish, after_finish, decision_of}
use ess_mcp.Approvals.Gate.Methods.{
  after_run, complete, execute, after_claim, after_decision, after_write, decide_stored, decide,
  clear,
}
use ess_mcp.Approvals.Gate.Once.{Visit, executions, executions_once}
use ess_mcp.Approvals.Gate.Authority.{IsAuthorised, decide-IsAuthorised}
use ess_mcp.Approvals.Gate.Verified.{execution_of}

abbrev tenant : Text
tenant = codes "11111111-2222-3333-4444-555555555555"

abbrev user : Text
user = codes "aaaaaaaa-2222-3333-4444-555555555555"

abbrev zeros : Text
zeros = codes "0000000000000000000000000000000000000000000000000000000000000000"

abbrev encoding : Encoding
encoding = record {
  scanner = record { has_credentials = λ s. false; casefold = λ s. s };
  dumps = λ j. some (codes "{}");
  sha256 = λ server tool args. zeros;
}

abbrev gate : Gate
gate = record {
  authorities = record { tenant = tenant; users = user ∷ [] };
  encoding = encoding;
  printed = λ j. codes "{}";
  scrub = λ s. s;
}

abbrev chat : ChatScope
chat = record { tenant_id = tenant; agent_id = codes "agent"; conversation_id = codes "19:chat" }

abbrev person : Actor
person = record {
  aad_object_id = some user;
  tenant_id = some tenant;
  conversation_id = some (codes "19:chat");
}

abbrev known : Identity
known = record { aad_object_id = user; tenant_id = tenant; conversation_id = codes "19:chat" }

abbrev id : Text
id = codes "0123456789ab"

abbrev request : Request
request = record {
  server = codes "workday";
  tool = codes "request_leave";
  args = object end;
  digest = zeros;
  requester_id = user;
  scope = chat;
  expires_at = 1000;
  status = pending;
  at = 100;
  result = [];
  claim_id = none;
}

abbrev stored : Tasks
stored = (id, request) ∷ []

abbrev turn : Turn
turn = record {
  claim_id = codes "nonce";
  cancelled_first = false;
  now = 200;
  claiming = saved;
  cancelled_claiming = false;
  later = 201;
  cancelled_ready = false;
  outcome = returns (codes "done");
  cancelled_run = false;
  others = λ ts. ts;
  finishing = saved;
  cancelled_finishing = false;
  others_again = λ ts. ts;
  cleaning = saved;
  cancelled_last = false;
}

abbrev approval : Text
approval = codes "approve 0123456789AB"

commands : parse_command approval ≡ some (approve, id)
unfolding parse_command after_prefix lower
commands = refl

stored-IsDict : IsDict stored
unfolding lookup
stored-IsDict = (refl, tt)

abbrev visit_once : Visit
visit_once = record {
  scope = chat;
  actor = person;
  text = approval;
  turn = turn;
  others = cleared ∷ [];
  others_again = [];
}

executions_once_example : executions gate id (visit_once ∷ visit_once ∷ []) stored ≤ 1
executions_once_example =
    executions_once gate id (visit_once ∷ visit_once ∷ []) stored stored-IsDict
      ((tt, tt), tt, ((tt, tt), tt, tt))

program : Unit {0}
unfolding decide decide_stored after_write after_decision after_claim execute after_run complete
    finish after_finish store_update left_by decide_tasks decide_request finish_tasks
    validated_request validated_call visit visit_fields enter spend check_text utf8_size
    is_tool_name is_digest is_pending is_executing parse_command after_prefix lower actor
    scope_allowed guid is_guid same_scope text_eq member lookup insert
program = tt

runs : (decide gate chat person approval turn stored).calls ≡ execution_of request known ∷ []
unfolding program
runs = refl

decide-IsAuthorised_example :
    (i : Text) × (who : Identity) × (parse_command approval ≡ some (approve, i))
    × (actor gate.authorities chat person ≡ some who)
    × IsAuthorised gate turn
        (decision_of chat turn approve i who)
        who
        stored
        (execution_of request known)
decide-IsAuthorised_example =
    decide-IsAuthorised gate chat person approval turn stored (execution_of request known) [] runs

abbrev decision : Decision
decision = decision_of chat turn approve id known

request_claims_once_example :
    claims gate id (decided 200 decision ∷ cleared ∷ decided 300 decision ∷ []) stored ≤ 1
request_claims_once_example =
    request_claims_once gate id (decided 200 decision ∷ cleared ∷ decided 300 decision ∷ []) stored
      stored-IsDict (tt, (tt, (tt, tt)))

abbrev lost_request : Request
lost_request = record request { status = unknown }

abbrev uncertain : Tasks
uncertain = (id, lost_request) ∷ []

uncertain-IsDict : IsDict uncertain
unfolding lookup
uncertain-IsDict = (refl, tt)

uncertain_there : lookup id uncertain ≡ some lost_request
unfolding lookup text_eq
uncertain_there = refl

unknown_kept_example :
    lookup id (apply_all gate (decided 200 decision ∷ cleared ∷ []) uncertain) ≡ some lost_request
unknown_kept_example =
    unknown_kept gate id (decided 200 decision ∷ cleared ∷ []) uncertain lost_request
      uncertain-IsDict uncertain_there refl

abbrev proposal : Proposal
proposal = record {
  server = codes "workday";
  tool = codes "request_leave";
  args = object end;
  digest = zeros;
  requester = user;
  scope = chat;
  candidates = codes "ba9876543210" ∷ [];
}

workday_known : member (codes "workday") servers ≡ true
unfolding member text_eq
workday_known = refl

leave_named : is_tool_name (codes "request_leave") ≡ true
unfolding is_tool_name
leave_named = refl

accepted :
    validated_call encoding (codes "workday") (codes "request_leave") (object end)
    ≡ ok (zeros, codes "{}")
unfolding program
accepted = refl

validated_call-ok_example :
    (member (codes "workday") servers ≡ true)
    × (is_tool_name (codes "request_leave") ≡ true)
    × (is_object (object end) ≡ true)
    × (values (object end) ≤ max_argument_bytes)
    × (nesting (object end) ≤ max_json_depth - 2)
    × (some (codes "{}") ≡ some (codes "{}"))
    × ((size : ℕ) × (utf8_size (codes "{}") ≡ some size) × (size ≤ max_argument_bytes))
    × (false ≡ false)
    × (zeros ≡ zeros)
validated_call-ok_example =
    validated_call-ok encoding (codes "workday") (codes "request_leave") (object end) zeros
      (codes "{}") accepted

clears : (clear gate chat saved stored).reply ≡ returns_none
unfolding program clear
clears = refl
