-- ===== src/Dispatch/Sending.antt =====
-- demo_agent/web.py, `_call_tool_safe`: the attempts of a call that runs, and the whole function. How
-- each await ends is an argument, but for a cancellation, which ends the call where it stands.
use ess_mcp.Prelude.{
  ℕ, zero, suc, ◌+◌, Bool, true, false, not, ◌&&◌, ◌||◌, Option, none, some, List, [], ◌∷◌, ◌++◌,
  any, ltb, if◌then◌else◌, Text, codes, member, Result, ok, err, ◌>>=◌,
}
use ess_mcp.Approvals.Json.{Json, Fields, contains}
use ess_mcp.Governance.Switches.{blocked, is_tool_blocked}
use ess_mcp.Guardrails.Verdict.{GuardVerdict, escalates}
use ess_mcp.Skills.Session.{ScriptEnd}
use ess_mcp.Dispatch.Admission.{
  DispatchError, runtime_error, permission_error, Note, run_blocked, Refused, World, Context,
  Moment, disabled_instance, is_human, admit, guarded, digest_of,
}
use ess_mcp.Dispatch.Reply.{Reply, tool_result_text}
use ess_mcp.Dispatch.Route.{
  RunState, Route, refuses, dry_run, proposes, runs, Facts, route, facts_of,
}

-- One round of the loop: what it finds, how the call ends, what `ensure_effect_scope` raises afterwards,
-- and whether a new connection can be made.
pub record Attempt : Type 0 where
  pub moment : Moment
  pub reply : Result Text Reply
  pub scope_after : Option Text
  pub reconnects : Bool

pub record Sent : Type 0 where
  pub server : Text
  pub tool : Text
  pub args : Fields
  pub moment : Moment

retry_words : List Text
retry_words =
    codes "401"
    ∷ codes "unauthorized"
    ∷ codes "invalid_token"
    ∷ codes "token expired"
    ∷ codes "token has expired"
    ∷ codes "access token has expired"
    ∷ codes "expired token"
    ∷ codes "not connected"
    ∷ codes "session terminated"
    ∷ codes "session not found"
    ∷ codes "404"
    ∷ codes "mcp-session-id"
    ∷ []

-- `reconnectable`
unfoldable pub is_reconnectable : World → Text → Bool
unfolding retry_words contains
is_reconnectable w text = any (λ word. contains word (w.lower text)) retry_words

abbrev pub accepts : World → Option Json → Fields → Bool
accepts w none args = false
accepts w (some schema) args = w.valid schema args

-- the text of the reply, unless the scope is gone afterwards
unfoldable pub after_reply : World → Result Text Reply → Option Text → Result Text Text
after_reply w (err text) scope = err text
after_reply w (ok reply) scope = do
  text ← tool_result_text w reply
  elim scope [ none ↦ ok text | some gone ↦ err gone ]

-- The body of `try`: whether the call was sent, the text or the text of the error, and the entries for
-- the ledger.
pub record Tried : Type 0 where
  pub sent : Bool
  pub reply : Result Text Text
  pub notes : List Note

abbrev stopped : Text → List Note → Tried
stopped text notes = record { sent = false; reply = err text; notes = notes }

unfoldable pub try_once : World → Context → Facts → Attempt → Tried
unfolding after_reply
try_once w c f a = elim a.moment.scope_error [
  | some text ↦ stopped text []
  | none ↦ elim (disabled_instance c a.moment) [
    | some (id, d) ↦
        stopped (codes "This Group Functions Autopilot instance is disabled by governance.")
          (run_blocked id d ∷ [])
    | none ↦
        if blocked (is_tool_blocked w.lower f.server f.tool a.moment.governance)
        then stopped (codes "The tool is blocked by governance policy.") []
        else if accepts w a.moment.schema f.args
        then record { sent = true; reply = after_reply w a.reply a.scope_after; notes = [] }
        else stopped (codes "The current tool schema no longer accepts this call.") []
  ]
]

pub record Delivery : Type 0 where
  pub sent : List Sent
  pub reply : Result DispatchError Text
  pub notes : List Note

abbrev pub sent_of : Bool → Facts → Moment → List Sent
sent_of false f m = []
sent_of true f m = record { server = f.server; tool = f.tool; args = f.args; moment = m } ∷ []

abbrev pub onto : List Sent → List Note → Delivery → Delivery
onto sent notes d = record { sent = sent ++ d.sent; reply = d.reply; notes = notes ++ d.notes }

-- The loop, with the rounds left and the number of the round.
unfoldable pub attempts : World → Context → Facts → (ℕ → Attempt) → ℕ → ℕ → Delivery
unfolding try_once is_reconnectable
attempts w c f a zero i = record { sent = []; reply = err runtime_error; notes = [] }
attempts w c f a (suc n) i =
    let t = try_once w c f (a i) in
    let sent = sent_of t.sent f (a i).moment in
    let rest = attempts w c f a n (suc i) in
    elim t.reply [
      | ok text ↦ record { sent = sent; reply = ok text; notes = t.notes }
      | err text ↦
          if f.readonly && ltb i 2 && is_reconnectable w text && (a i).reconnects
          then onto sent t.notes rest
          else record { sent = sent; reply = err runtime_error; notes = t.notes }
    ]

pub data Answer : Type 0 where
  nothing_ran : Answer
  awaits_approval : Answer
  human_replied : Answer
  result_text : Text → Answer

pub record Outcome : Type 0 where
  pub answer : Result DispatchError Answer
  pub sent : List Sent
  pub state : RunState
  pub notes : List Note

abbrev silent : Result DispatchError Answer → RunState → List Note → Outcome
silent answer r notes = record { answer = answer; sent = []; state = r; notes = notes }

abbrev pub noted : Text → Option (List Text) → Option (List Text)
noted digest none = none
noted digest (some ds) = some (if member digest ds then ds else ds ++ (digest ∷ []))

-- the capability is used up before the call is sent
unfoldable pub consume : Facts → RunState → RunState
consume f r = if not f.readonly || f.escalate then record r { approved = none } else r

-- the end of the function, with the verdict on the result; `later` is the state of the run by then
unfoldable pub concluded : Facts → (Text → Text) → Delivery → RunState → RunState → Outcome
concluded f guard_result d r later = elim d.reply [
  | err e ↦ record { answer = err e; sent = d.sent; state = r; notes = d.notes }
  | ok text ↦ record {
    answer = ok (result_text (guard_result text));
    sent = d.sent;
    state = if f.readonly then later else record later { writes = later.writes + 1 };
    notes = d.notes;
  }
]

-- How the awaits of one call end: the verdict and what it makes of the arguments, the human's reply, the
-- policy check and what others do during it, whether a proposal was saved, the attempts, what others do
-- to the run during these or the proposal, and the verdict on the result.
pub record Awaits : Type 0 where
  pub verdict : GuardVerdict
  pub changed : Option Fields
  pub human_replies : Bool
  pub check : ScriptEnd
  pub during_check : RunState → RunState
  pub saved : Bool
  pub attempt : ℕ → Attempt
  pub meanwhile : RunState → RunState
  pub guard_result : Text → Text

-- the branch that `route` has taken
unfoldable pub follow : World → Context → Facts → Awaits → Text → RunState → Route → Outcome
unfolding attempts consume concluded
follow w c f x digest r (refuses e) = silent (err e) r []
follow w c f x digest r dry_run = silent (ok nothing_ran) r []
follow w c f x digest r (proposes s) =
    let later = x.meanwhile s in
    if x.saved
    then silent (ok awaits_approval) (record later { pending = noted digest later.pending }) []
    else silent (ok nothing_ran) later []
follow w c f x digest r (runs who s) =
    let used = consume f s in
    let rounds : ℕ = if f.readonly then 3 else 1 in
    concluded f x.guard_result (attempts w c f x.attempt rounds 0) used (x.meanwhile used)

-- the branch of `ask_manager`
unfoldable pub ask_human : Context → Awaits → RunState → Outcome
ask_human c x r =
    if not c.has_manager
    then silent (err permission_error) r []
    else if x.human_replies
    then silent (ok human_replied) r []
    else silent (err runtime_error) r []

-- behind the guardrails
unfoldable pub dispatch : World → Context → Awaits → Text → Text → Fields → ℕ → RunState → Outcome
unfolding follow ask_human
dispatch w c x server tool args now r =
    if is_human server then ask_human c x r else elim (digest_of w server tool args) [
      | err (e, notes) ↦ silent (err e) r notes
      | ok digest ↦
          let f = facts_of server tool args (escalates x.verdict) r.approved digest in
          follow w c f x digest r (route w c f x.check x.during_check now r)
    ]

-- what passes the admission and the guardrails
unfoldable pub accepted :
    World → Context → Moment → Awaits → Text → Text → Fields → RunState → Result Refused Fields
accepted w c m x server tool given r = do
  (schema, args) ← admit w c m server tool given
  guarded w c r.approved schema x.verdict x.changed server tool args

-- `_call_tool_safe`
unfoldable pub call_tool_safe :
    World → Context → Moment → Awaits → Text → Text → Fields → ℕ → RunState → Outcome
unfolding accepted dispatch
call_tool_safe w c m x server tool given now r = elim (accepted w c m x server tool given r) [
  | err (e, notes) ↦ silent (err e) r notes
  | ok args ↦ dispatch w c x server tool args now r
]
