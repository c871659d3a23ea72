-- ===== src/Dispatch/Backed.antt =====
-- demo_agent/web.py, `_call_tool_safe`: the whole function, from its admission to what it sends.
use ess_mcp.Prelude.{
  ℕ, zero, suc, ◌≤◌, ◌≡◌, refl, Bool, true, false, ◌&&◌, List, [], ◌++◌, arith, ltb, if◌then◌else◌,
  length, length-append, Text, ok, Bool-cases, Result-cases, inl, inr, ◌⊎◌,
}
use ess_mcp.Approvals.Json.{Fields}
use ess_mcp.Guardrails.Verdict.{escalates}
use ess_mcp.Dispatch.Admission.{World, Context, Moment, is_human, digest_of}
use ess_mcp.Dispatch.Route.{
  RunState, Authority, Route, refuses, dry_run, proposes, runs, Facts, route, facts_of,
}
use ess_mcp.Dispatch.Sending.{
  Attempt, Sent, sent_of, is_reconnectable, try_once, Delivery, attempts, Outcome, Awaits, consume,
  concluded, follow, ask_human, dispatch, accepted, call_tool_safe,
}
use ess_mcp.Dispatch.Authority.{AllClear, HasAuthority}

-- A round is the last one, or is followed by the others.
attempts-sent :
    (w : World) (c : Context) (f : Facts) (a : ℕ → Attempt) (n i : ℕ)
    → ((attempts w c f a (suc n) i).sent ≡ sent_of (try_once w c f (a i)).sent f (a i).moment)
      ⊎ ((attempts w c f a (suc n) i).sent
          ≡ sent_of (try_once w c f (a i)).sent f (a i).moment ++ (attempts w c f a n (suc i)).sent)
unfolding attempts
attempts-sent w c f a n i = elim (Result-cases (try_once w c f (a i)).reply) [
  | inl (text, fine) ↦ inl (rw (attempts, fine) refl)
  | inr (text, failed) ↦
      elim (Bool-cases (f.readonly && ltb i 2 && is_reconnectable w text && (a i).reconnects)) [
        | inl again ↦ inr (rw (attempts, failed, again) refl)
        | inr over ↦ inl (rw (attempts, failed, over) refl)
      ]
]

length-sent_of : (b : Bool) (f : Facts) (m : Moment) → length (sent_of b f m) ≤ 1
length-sent_of true f m = omega arith
length-sent_of false f m = omega arith

pub length-attempts :
    (w : World) (c : Context) (f : Facts) (a : ℕ → Attempt) (n i : ℕ)
    → length (attempts w c f a n i).sent ≤ n
unfolding attempts
length-attempts w c f a zero i = omega arith
length-attempts w c f a (suc n) i =
    let first = length-sent_of (try_once w c f (a i)).sent f (a i).moment in
    elim (attempts-sent w c f a n i) [
      | inl last ↦ rw last (omega (arith, first))
      | inr more ↦
          rw
            (
              more,
              length-append (sent_of (try_once w c f (a i)).sent f (a i).moment)
                  (attempts w c f a n (suc i)).sent,
            )
            (omega (arith, first, length-attempts w c f a n (suc i)))
    ]

-- What is known when a call of `_call_tool_safe` sends something.
pub record IsBacked (w : World) (c : Context) (m : Moment) (x : Awaits) (server tool : Text)
    (given : Fields) (now : ℕ) (r : RunState) (sent : List Sent) : Type 0 where
  pub args : Fields
  pub digest : Text
  pub who : Authority
  pub charged : RunState
  pub admitted : accepted w c m x server tool given r ≡ ok args
  pub digested : digest_of w server tool args ≡ ok digest
  pub authority :
      HasAuthority w c
        (facts_of server tool args (escalates x.verdict) r.approved digest)
        x.check
        x.during_check
        now
        r
        charged
        who
  pub clear : AllClear w c (facts_of server tool args (escalates x.verdict) r.approved digest) sent

concluded-sent :
    (f : Facts) (guard_result : Text → Text) (d : Delivery) (r later : RunState)
    → (concluded f guard_result d r later).sent ≡ d.sent
unfolding concluded
concluded-sent f guard_result d r later = elim (Result-cases d.reply) [
  | inl (text, fine) ↦ rw fine refl
  | inr (e, failed) ↦ rw failed refl
]

abbrev pub rounds_of : Bool → ℕ
rounds_of readonly = if readonly then 3 else 1

-- A route that sends something runs.
pub follow-sent :
    (w : World) (c : Context) (f : Facts) (x : Awaits) (digest : Text) (r : RunState) (o : Route)
    → ((follow w c f x digest r o).sent ≡ [])
      ⊎ ((who : Authority) × (s : RunState) × (o ≡ runs who s)
          × ((follow w c f x digest r o).sent
              ≡ (attempts w c f x.attempt (rounds_of f.readonly) 0).sent))
unfolding follow
follow-sent w c f x digest r (refuses e) = inl refl
follow-sent w c f x digest r dry_run = inl refl
follow-sent w c f x digest r (proposes s) = inl (ground arith)
follow-sent w c f x digest r (runs who s) =
    inr (who, s, refl, concluded-sent f x.guard_result _ (consume f s) (x.meanwhile (consume f s)))

module _ (w : World) (c : Context) (m : Moment) (x : Awaits) (server tool : Text) (given : Fields)
    (now : ℕ) (r : RunState) where
  abbrev pub known : Fields → Text → Facts
  known args digest = facts_of server tool args (escalates x.verdict) r.approved digest

  -- A call that is admitted and has a digest follows its route; any other sends nothing.
  pub record Follows (o : Outcome) : Type 0 where
    pub args : Fields
    pub digest : Text
    pub admitted : accepted w c m x server tool given r ≡ ok args
    pub digested : digest_of w server tool args ≡ ok digest
    pub routed :
        o
        ≡ follow w c
            (known args digest)
            x
            digest
            r
            (route w c (known args digest) x.check x.during_check now r)

  ask_human-sent : (ask_human c x r).sent ≡ []
  unfolding ask_human
  ask_human-sent = ground arith

  pub call_tool_safe-Follows :
      ((call_tool_safe w c m x server tool given now r).sent ≡ [])
      ⊎ Follows (call_tool_safe w c m x server tool given now r)
  unfolding call_tool_safe dispatch
  call_tool_safe-Follows = elim (Result-cases (accepted w c m x server tool given r)) [
    | inr ((e, notes), refused) ↦ inl (rw (call_tool_safe, refused) refl)
    | inl (args, admitted) ↦ elim (Bool-cases (is_human server)) [
      | inl human ↦ inl (rw (call_tool_safe, admitted, human) ask_human-sent)
      | inr system ↦ elim (Result-cases (digest_of w server tool args)) [
        | inr ((e, notes), undigested) ↦
            inl (rw (call_tool_safe, admitted, system, undigested) refl)
        | inl (digest, digested) ↦ inr (record {
          args = args;
          digest = digest;
          admitted = admitted;
          digested = digested;
          routed = rw (call_tool_safe, admitted, system, digested) refl;
        })
      ]
    ]
  ]
