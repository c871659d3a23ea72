-- ===== src/Dispatch/Reported.antt =====
-- demo_agent/web.py, `_call_tool_safe` and `_tool_result_text`: which result a call reports.
use ess_mcp.Prelude.{
  ℕ, zero, suc, ◌≤◌, ◌≡◌, refl, ap, ◌∙◌, true, false, ◌&&◌, ◌||◌, Option, none, some, List, arith,
  any, ltb, length, length-append, Text, Bool-cases, Option-cases, Result, ok, err, Result-cases,
  inl, inr,
}
use ess_mcp.Approvals.Json.{Fields}
use ess_mcp.Governance.Switches.{blocked, is_tool_blocked}
use ess_mcp.Guardrails.Verdict.{escalates}
use ess_mcp.Dispatch.Admission.{World, Context, Moment, is_human, digest_of, disabled_instance}
use ess_mcp.Dispatch.Route.{RunState, Route, refuses, dry_run, proposes, runs, Facts, facts_of}
use ess_mcp.Dispatch.Reply.{
  Reply, is_raised, failed_content, failed_text, says_error, text_in, tool_result_text,
}
use ess_mcp.Dispatch.Sending.{
  Attempt, Sent, accepts, after_reply, try_once, sent_of, is_reconnectable, attempts, result_text,
  Outcome, concluded, Awaits, consume, follow, ask_human, dispatch, accepted, call_tool_safe,
}

-- The reply reports no failure, and this is its text.
pub record IsSuccess (w : World) (r : Reply) (text : Text) : Type 0 where
  pub flags : any is_raised r.flags ≡ false
  pub structured : failed_content r.structured ≡ false
  pub spoken : says_error w text ≡ false
  pub written : failed_text (w.python.loads text) ≡ false
  pub whole : text_in r ≡ text

tool_result_text-IsSuccess :
    (w : World) (r : Reply) (text : Text) → tool_result_text w r ≡ ok text → IsSuccess w r text
unfolding tool_result_text
tool_result_text-IsSuccess w r text h = elim (Bool-cases (any is_raised r.flags)) [
  | inl raised ↦ absurd (ground (arith, h, raised))
  | inr quiet ↦ elim (Bool-cases (failed_content r.structured)) [
    | inl failed ↦ absurd (ground (arith, h, quiet, failed))
    | inr fine ↦
        elim (Bool-cases (says_error w (text_in r) || failed_text (w.python.loads (text_in r)))) [
          | inl bad ↦ absurd (ground (arith, h, quiet, fine, bad))
          | inr good ↦
              let same : text_in r ≡ text = ground (arith, h, quiet, fine, good) in
              record {
                flags = quiet;
                structured = fine;
                spoken = rw (← same) (ground (arith, good));
                written = rw (← same) (ground (arith, good));
                whole = same;
              }
        ]
  ]
]

-- The reply of one round, after which the scope is still valid.
pub record IsReplied (w : World) (a : Attempt) (text : Text) : Type 0 where
  pub reply : Reply
  pub arrived : a.reply ≡ ok reply
  pub scope : a.scope_after ≡ none
  pub success : IsSuccess w reply text

after_reply-ok :
    (w : World) (o : Result Text Reply) (scope : Option Text) (text : Text)
    → after_reply w o scope ≡ ok text
    → (r : Reply) × (o ≡ ok r) × (scope ≡ none) × (tool_result_text w r ≡ ok text)
unfolding after_reply
after_reply-ok w (err e) scope text h = cc
after_reply-ok w (ok r) (some gone) text h = elim (Result-cases (tool_result_text w r)) [
  | inr (e, bad) ↦ absurd (ground (arith, h, bad))
  | inl (t, good) ↦ absurd (ground (arith, h, good))
]
after_reply-ok w (ok r) none text h = elim (Result-cases (tool_result_text w r)) [
  | inr (e, bad) ↦ absurd (ground (arith, h, bad))
  | inl (t, good) ↦ (r, refl, refl, ground (arith, h, good))
]

try_once-IsReplied :
    (w : World) (c : Context) (f : Facts) (a : Attempt) (text : Text)
    → (try_once w c f a).reply ≡ ok text
    → ((try_once w c f a).sent ≡ true) × IsReplied w a text
unfolding try_once
try_once-IsReplied w c f a text h = elim (Option-cases a.moment.scope_error) [
  | inr (t, gone) ↦ absurd (ground (arith, h, gone))
  | inl scope ↦ elim (Option-cases (disabled_instance c a.moment)) [
    | inr (d, off) ↦ absurd (ground (arith, h, scope, off))
    | inl enabled ↦
        elim (Bool-cases (blocked (is_tool_blocked w.lower f.server f.tool a.moment.governance))) [
          | inl denied ↦ absurd (ground (arith, h, scope, enabled, denied))
          | inr open_now ↦ elim (Bool-cases (accepts w a.moment.schema f.args)) [
            | inr unfit ↦ absurd (ground (arith, h, scope, enabled, open_now, unfit))
            | inl fits ↦
                let told : after_reply w a.reply a.scope_after ≡ ok text =
                  ground (arith, h, scope, enabled, open_now, fits) in
                let (r, arrived, after, read) = after_reply-ok w a.reply a.scope_after text told in
                (
                  ground (arith, scope, enabled, open_now, fits),
                  record {
                    reply = r;
                    arrived = arrived;
                    scope = after;
                    success = tool_result_text-IsSuccess w r text read;
                  },
                )
          ]
        ]
  ]
]

-- The reply of some round, in which the call was sent.
pub record IsArrived (w : World) (a : ℕ → Attempt) (text : Text) (sent : List Sent) : Type 0 where
  pub round : ℕ
  pub replied : IsReplied w (a round) text
  pub made : 1 ≤ length sent

attempts-IsArrived :
    (w : World) (c : Context) (f : Facts) (a : ℕ → Attempt) (n i : ℕ) (text : Text)
    → (attempts w c f a n i).reply ≡ ok text
    → IsArrived w a text (attempts w c f a n i).sent
unfolding attempts
attempts-IsArrived w c f a zero i text h = cc
attempts-IsArrived w c f a (suc n) i text h = elim (Result-cases (try_once w c f (a i)).reply) [
  | inl (t, fine) ↦
      let same : t ≡ text = ground (arith, h, fine) in
      let (sent, replied) = try_once-IsReplied w c f (a i) text (fine ∙ ap ok same) in
      record { round = i; replied = replied; made = rw (attempts, fine, sent) (omega arith) }
  | inr (e, failed) ↦
      elim (Bool-cases (f.readonly && ltb i 2 && is_reconnectable w e && (a i).reconnects)) [
        | inr over ↦ absurd (ground (arith, h, failed, over))
        | inl again ↦
            let later =
              attempts-IsArrived w c f a n (suc i) text (ground (arith, h, failed, again)) in
            record {
              round = later.round;
              replied = later.replied;
              made =
                  rw (attempts, failed, again)
                    (omega (
                      arith,
                      later.made,
                      length-append (sent_of (try_once w c f (a i)).sent f (a i).moment)
                          (attempts w c f a n (suc i)).sent,
                    ));
            }
      ]
]

-- What is shown is what the guardrails make of the text of a reply that has arrived.
pub record IsReported (w : World) (x : Awaits) (text : Text) (sent : List Sent) : Type 0 where
  pub raw : Text
  pub arrived : IsArrived w x.attempt raw sent
  pub shown : x.guard_result raw ≡ text

abbrev Shows : World → Awaits → Outcome → Type 0
Shows w x o = (text : Text) → o.answer ≡ ok (result_text text) → IsReported w x text o.sent

concluded-Shows :
    (w : World) (c : Context) (f : Facts) (x : Awaits) (n : ℕ) (r later : RunState)
    → Shows w x (concluded f x.guard_result (attempts w c f x.attempt n 0) r later)
unfolding concluded
concluded-Shows w c f x n r later text = elim (Result-cases (attempts w c f x.attempt n 0).reply) [
  | inr (e, failed) ↦ rw (concluded, failed) (λ h. cc)
  | inl (raw, fine) ↦
      rw (concluded, fine)
        (λ h. record {
          raw = raw;
          arrived = attempts-IsArrived w c f x.attempt n 0 raw fine;
          shown = cc;
        })
]

follow-Shows :
    (w : World) (c : Context) (f : Facts) (x : Awaits) (digest : Text) (r : RunState) (o : Route)
    → Shows w x (follow w c f x digest r o)
unfolding follow
follow-Shows w c f x digest r (refuses e) text = λ h. cc
follow-Shows w c f x digest r dry_run text = λ h. cc
follow-Shows w c f x digest r (proposes s) text = elim (Bool-cases x.saved) [
  | inl kept ↦ rw (kept, follow) (λ h. cc)
  | inr lost ↦ rw (lost, follow) (λ h. cc)
]
follow-Shows w c f x digest r (runs who s) text =
    concluded-Shows w c f x _ (consume f s) (x.meanwhile (consume f s)) text

ask_human-Shows :
    (w : World) (c : Context) (x : Awaits) (r : RunState) → Shows w x (ask_human c x r)
unfolding ask_human
ask_human-Shows w c x r text = elim (Bool-cases c.has_manager) [
  | inr nobody ↦ rw (nobody, ask_human) (λ h. cc)
  | inl manager ↦ elim (Bool-cases x.human_replies) [
    | inl replies ↦ rw (manager, replies, ask_human) (λ h. cc)
    | inr silent ↦ rw (manager, silent, ask_human) (λ h. cc)
  ]
]

-- When a call returns the text of a result, the call was sent, a reply to it has arrived, after which the
-- scope was still valid, and the reply reports no failure in any of the ways that a tool may use: by a
-- flag, in its structured content, by a text that begins with "error:", or by a text that is JSON of
-- a failure; what is returned is what the guardrails make of that text.
pub call_tool_safe-IsReported :
    (w : World) (c : Context) (m : Moment) (x : Awaits) (server tool : Text) (given : Fields)
    (now : ℕ) (r : RunState) (text : Text)
    → (call_tool_safe w c m x server tool given now r).answer ≡ ok (result_text text)
    → IsReported w x text (call_tool_safe w c m x server tool given now r).sent
unfolding call_tool_safe dispatch
call_tool_safe-IsReported w c m x server tool given now r text =
    elim (Result-cases (accepted w c m x server tool given r)) [
      | inr ((e, notes), refused) ↦ rw (call_tool_safe, refused) (λ h. cc)
      | inl (args, admitted) ↦ elim (Bool-cases (is_human server)) [
        | inl human ↦ rw (call_tool_safe, admitted, human) (ask_human-Shows w c x r text)
        | inr system ↦ elim (Result-cases (digest_of w server tool args)) [
          | inr ((e, notes), undigested) ↦
              rw (call_tool_safe, admitted, system, undigested) (λ h. cc)
          | inl (digest, digested) ↦
              rw (call_tool_safe, admitted, system, digested)
                (follow-Shows w c
                  (facts_of server tool args (escalates x.verdict) r.approved digest) x digest r _
                  text)
        ]
      ]
    ]
