-- ===== src/Dispatch/Examples.antt =====
-- A requester of a chat delegates an update of a case: the theorems of Dispatch at it.
use ess_mcp.Prelude.{
  drop_spaces, ◌≡◌, refl, true, false, none, some, [], ◌∷◌, length, ascii, codes, lower, ok,
  text_eq, member, lookup,
}
use ess_mcp.Memory.State.{utf8_size}
use ess_mcp.Compliance.Identity.{fold_case}
use ess_mcp.Approvals.Json.{
  null, end, visit, enter, spend, credential_key, contains, visit_text, spend_text,
}
use ess_mcp.Approvals.Call.{validated_call, is_tool_name, check_text, tool_call_digest}
use ess_mcp.Governance.Switches.{
  load, is_instance_disabled, is_tool_blocked, disabled_for, blocked, first_rule,
}
use ess_mcp.Guardrails.Verdict.{allow, enforce, denies, escalates, transforms}
use ess_mcp.Skills.Grants.{is_read_only}
use ess_mcp.Skills.Paths.{split, join}
use ess_mcp.Skills.Session.{raised}
use ess_mcp.Dispatch.Admission.{
  World, Context, Moment, admit, guarded, approves, first_disabled, with_aliases,
}
use ess_mcp.Dispatch.Reply.{tool_result_text}
use ess_mcp.Dispatch.Route.{
  RunState, route, facts_of, without_grant, delegates, may_be_granted, needs_person, is_sensitive,
  after_grant,
}
use ess_mcp.Dispatch.Sending.{Awaits, Outcome, result_text, call_tool_safe}
use ess_mcp.Dispatch.Reported.{IsReported, call_tool_safe-IsReported}
use ess_mcp.Dispatch.Once.{IsOnce, call_tool_safe-IsOnce}

abbrev world : World
world = record {
  python = record { unicode = ascii; casefold = lower; digit = λ c. none; loads = λ t. none };
  encoding = record {
    scanner = record { has_credentials = λ t. false; casefold = lower };
    dumps = λ j. some (codes "{}");
    sha256 = λ server tool j. server;
  };
  lower = lower;
  valid = λ schema args. true;
  plain = λ args. some args;
  dumped = λ args. 2;
  same = λ a b. true;
  human_schema = null;
}

abbrev context : Context
context = record {
  scope_known = true;
  has_manager = false;
  identifiers = codes "i1" ∷ [];
  allowed_servers = codes "salesforce" ∷ [];
  subagent = false;
  from_chat = true;
}

abbrev moment : Moment
moment = record { governance = load none; instances = []; schema = some null; scope_error = none }

abbrev awaits : Awaits
awaits = record {
  verdict = record {
    point = codes "pre_tool_call";
    decision = allow;
    reason = [];
    mode = enforce;
    transformed = none;
    applied = false;
  };
  changed = none;
  human_replies = false;
  check = raised;
  during_check = λ r. r;
  saved = false;
  attempt = λ i. record {
    moment = moment;
    reply =
        ok (record { flags = []; structured = none; texts = some (codes "done" ∷ []); whole = [] });
    scope_after = none;
    reconnects = false;
  };
  meanwhile = λ r. r;
  guard_result = λ t. t;
}

abbrev run : RunState
run = record {
  approved = none;
  session = none;
  delegated_left = some 8;
  writes = 0;
  pending = some [];
}

abbrev outcome : Outcome
outcome =
    call_tool_safe world context moment awaits (codes "salesforce") (codes "update_case") end 5 run

sends_once :
    (length outcome.sent ≡ 1)
    × (outcome.state.delegated_left ≡ some 7)
    × (outcome.state.writes ≡ 1)
    × (outcome.answer ≡ ok (result_text (codes "done")))
unfolding call_tool_safe admit text_eq member lookup load blocked is_instance_disabled disabled_for
    is_tool_blocked first_rule guarded denies escalates transforms tool_call_digest validated_call
    is_tool_name visit enter check_text utf8_size spend credential_key contains visit_text
    spend_text route facts_of without_grant delegates may_be_granted needs_person is_sensitive
    fold_case split is_read_only lower approves after_grant first_disabled with_aliases
    tool_result_text drop_spaces join
sends_once = (refl, refl, refl, refl)

call_tool_safe-IsOnce_example : IsOnce (is_read_only (codes "update_case")) outcome
call_tool_safe-IsOnce_example =
    call_tool_safe-IsOnce world context moment awaits (codes "salesforce") (codes "update_case") end
      5 run (λ s. refl)

call_tool_safe-IsReported_example : IsReported world awaits (codes "done") outcome.sent
call_tool_safe-IsReported_example =
    call_tool_safe-IsReported world context moment awaits (codes "salesforce") (codes "update_case")
      end 5 run (codes "done") sends_once.3
