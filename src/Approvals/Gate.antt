-- ===== src/Approvals/Gate.antt =====
-- demo_agent/tool_approvals.py, `ToolApprovalGate`: what its methods work with, `_finish`, and how
-- `decide` gives up. How each write of the store ends, when the caller is cancelled, what the tool
-- answers, and what other calls write between the awaits are arguments.
pub mod Methods
pub mod Tails
pub mod Trace
pub mod Once
pub mod Waiting
pub mod Verified
pub mod Authority
use ess_mcp.Prelude.{
  ℕ, zero, suc, ◌+◌, ◌≡◌, refl, Bool, true, false, not, ◌&&◌, ◌||◌, Option, none, some, List, [],
  ◌∷◌, ◌++◌, ltb, leb, ◌==◌, if◌then◌else◌, length, Text, codes, text_eq, lookup, Result, ok, err,
}
use ess_mcp.Memory.State.{ChatScope, same_scope}
use ess_mcp.Memory.Saving.{Saving, store_update, left_by}
use ess_mcp.Approvals.Identity.{
  Authorities, Actor, Identity, Action, approve, reject, scope_allowed, actor, parse_command,
}
use ess_mcp.Approvals.Json.{
  Json, Invalid, server_name, tool_name, not_object, too_deep, too_large, credentials, not_finite,
  string_keys, plain_values, bounded_json, unverified, expired,
}
use ess_mcp.Approvals.Call.{Encoding, validated_call}
use ess_mcp.Approvals.Record.{
  Request, Status, completed, rejected, unknown, is_pending, is_executing, denied_text,
  save_failed_text, not_found_text, invalid_text, expired_text, unknown_text, completed_text,
  safe_result, has_claim, validated_request,
}
use ess_mcp.Approvals.Tasks.{
  Tasks, Proposal, Decision, reason_of, is_claim, propose_tasks, decide_tasks, finish_tasks,
  clear_tasks,
}

-- What the gate is built with: the tenant and the users, the encoding of arguments, the printed form
-- of a preview, and the redaction of conversation_memory.py.
pub record Gate : Type 0 where
  pub authorities : Authorities
  pub encoding : Encoding
  pub printed : Json → Text
  pub scrub : Text → Text

-- `None`, a text, or an exception.
pub data Reply : Type 0 where
  returns_none : Reply
  says : Text → Reply
  raises : Reply

-- A call of the executor.
pub record Execution : Type 0 where
  pub server : Text
  pub tool : Text
  pub args : Json
  pub identity : Identity

-- How the executor ends.
pub data Outcome : Type 0 where
  returns : Text → Outcome
  fails cancels : Outcome

pub record Ran : Type 0 where
  pub reply : Reply
  pub stored : Tasks
  pub calls : List Execution

abbrev pub ran : Reply → Tasks → List Execution → Ran
ran reply stored calls = record { reply = reply; stored = stored; calls = calls }

-- What happens during one call of `decide`. A write whose caller is cancelled is joined, and then
-- raises.
pub record Turn : Type 0 where
  pub claim_id : Text
  pub cancelled_first : Bool
  pub now : ℕ
  pub claiming : Saving
  pub cancelled_claiming : Bool
  pub later : ℕ
  pub cancelled_ready : Bool
  pub outcome : Outcome
  pub cancelled_run : Bool
  pub others : Tasks → Tasks
  pub finishing : Saving
  pub cancelled_finishing : Bool
  pub others_again : Tasks → Tasks
  pub cleaning : Saving
  pub cancelled_last : Bool

-- the texts of the `_InvalidRequest` that `_validated_call` raises
unfoldable pub invalid_text_of : Invalid → Text
invalid_text_of server_name =
    codes "Only the configured workday, servicenow, coupa, or salesforce tools can be approved."
invalid_text_of tool_name =
    codes "Tool names must contain 1–64 ASCII letters, digits, or underscores."
invalid_text_of not_object = codes "Tool arguments must be a plain JSON object."
invalid_text_of too_deep = codes "Tool arguments are too deeply nested or cyclic."
invalid_text_of too_large = codes "Tool arguments exceed the 16000-byte JSON limit."
invalid_text_of credentials = codes "Credentials are not accepted in tool arguments."
invalid_text_of not_finite = codes "Tool arguments must contain only finite JSON values."
invalid_text_of string_keys = codes "Tool argument keys must be strings."
invalid_text_of plain_values = codes "Tool arguments must contain only plain JSON values."
invalid_text_of bounded_json = codes "Tool arguments must be bounded, valid JSON."
invalid_text_of unverified = invalid_text
invalid_text_of expired = expired_text

abbrev pub is_command : Option (Action × Text) → Bool
is_command none = false
is_command (some c) = true

abbrev pub only : List Text → Option Text
only (id ∷ []) = some id
only _ = none

abbrev pub is_approve : Action → Bool
is_approve approve = true
is_approve reject = false

abbrev pub decision_of : ChatScope → Turn → Action → Text → Identity → Decision
decision_of scope t action id who = record {
  action = action;
  request_id = id;
  requester = who.aad_object_id;
  scope = scope;
  claim_id = t.claim_id;
}

-- `_finish` under cancellation or not; `none` where it raises
unfoldable pub finish : Text → Text → Status → Text → Saving → Bool → Tasks → Option Bool × Tasks
finish id claim_id status result saving cancelled ts =
    let (answer, ts') = store_update saving (finish_tasks id claim_id status result) ts in
    (
      if cancelled
          then none
          else (elim answer [ none ↦ none | some (finished, _) ↦ some finished ]),
      ts',
    )

-- The handler of `BaseException` in `decide`; its own failure is swallowed.
unfoldable pub give_up : Turn → Decision → Bool → Bool → List Execution → Tasks → Ran
give_up t d claimed cancelled calls ts =
    ran (if cancelled || t.cancelled_last then raises else says (unknown_text d.request_id))
      (if claimed
        then (finish d.request_id d.claim_id unknown (unknown_text d.request_id) t.cleaning false
            ts).1
        else ts)
      calls

-- What `decide` says when its own receipt is written, or another one has replaced its claim.
unfoldable pub after_finish : Turn → Decision → Text → List Execution → Option Bool → Tasks → Ran
after_finish t d message calls none ts =
    give_up t d true t.cancelled_finishing calls (t.others_again ts)
after_finish t d message calls (some true) ts = ran (says message) ts calls
after_finish t d message calls (some false) ts = ran (says (unknown_text d.request_id)) ts calls
