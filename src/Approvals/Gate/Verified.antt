-- ===== src/Approvals/Gate/Verified.antt =====
-- What the checks of a request and the parts of `decide` let through.
use ess_mcp.Prelude.{
  ℕ, ◌+◌, ◌≤◌, ◌<◌, ◌≡◌, refl, Bool, true, false, Option, none, some, List, [], ◌∷◌, arith, Text,
  text_eq_iff, Bool-cases, inl, inr, ok, Result-cases,
}
use ess_mcp.Memory.State.{ChatScope, same_scope}
use ess_mcp.Approvals.Json.{Json}
use ess_mcp.Approvals.Call.{Encoding, validated_call}
use ess_mcp.Approvals.Identity.{Identity, approve}
use ess_mcp.Approvals.Record.{
  Request, pending, executing, rejected, is_pending, validated_request, approval_ttl_seconds,
}
use ess_mcp.Approvals.Tasks.{Tasks, Decision, reason_of, decide_request}
use ess_mcp.Approvals.Gate.{
  Gate, Turn, Outcome, returns, fails, cancels, Execution, finish, give_up, after_finish,
}
use ess_mcp.Approvals.Gate.Methods.{after_run, complete, execute, after_claim}

-- A request of this requester in this chat, within its time, for a call that passes every check and has
-- the digest that was stored.
pub record IsVerified (e : Encoding) (now : ℕ) (scope : ChatScope) (requester : Text) (r : Request)
    : Type 0 where
  pub chat : same_scope r.scope scope ≡ true
  pub owner : r.requester_id ≡ requester
  pub lifetime : r.expires_at ≡ r.at + approval_ttl_seconds
  pub begun : r.at ≤ now
  pub live : now < r.expires_at
  pub digest : Text
  pub encoded : Text
  pub call : validated_call e r.server r.tool r.args ≡ ok (digest, encoded)
  pub same : r.digest ≡ digest

validated_request-IsVerified :
    (e : Encoding) (now : ℕ) (scope : ChatScope) (requester : Text) (r : Request) (args : Json)
    → validated_request e now scope requester r ≡ ok args
    → IsVerified e now scope requester r × (args ≡ r.args)
unfolding validated_request
validated_request-IsVerified e now scope requester r args h =
    elim (Result-cases (validated_call e r.server r.tool r.args)) [
      | inl ((digest, encoded), good) ↦ (
        record {
          chat = ground (arith, h);
          owner = ground (arith, h, text_eq_iff r.requester_id requester);
          lifetime = ground (arith, h);
          begun = ground (arith, h);
          live = ground (arith, h);
          digest = digest;
          encoded = encoded;
          call = good;
          same = ground (arith, h, good, text_eq_iff r.digest digest);
        },
        ground (arith, h),
      )
      | inr (reason, bad) ↦ absurd (ground (arith, h, bad))
    ]

give_up-calls :
    (t : Turn) (d : Decision) (claimed cancelled : Bool) (calls : List Execution) (ts : Tasks)
    → (give_up t d claimed cancelled calls ts).calls ≡ calls
unfolding give_up
give_up-calls t d claimed cancelled calls ts = refl

after_finish-calls :
    (t : Turn) (d : Decision) (message : Text) (calls : List Execution) (answer : Option Bool)
    (ts : Tasks)
    → (after_finish t d message calls answer ts).calls ≡ calls
unfolding after_finish give_up
after_finish-calls t d message calls none ts = refl
after_finish-calls t d message calls (some true) ts = refl
after_finish-calls t d message calls (some false) ts = refl

after_run-calls :
    (g : Gate) (t : Turn) (d : Decision) (calls : List Execution) (o : Outcome) (ts : Tasks)
    → (after_run g t d calls o ts).calls ≡ calls
unfolding after_run complete give_up
after_run-calls g t d calls (returns text) ts = elim (Bool-cases t.cancelled_run) [
  | inl cancelled ↦ rw cancelled refl
  | inr on ↦ rw on (after_finish-calls _ d _ calls _ _)
]
after_run-calls g t d calls fails ts = refl
after_run-calls g t d calls cancels ts = refl

-- the execution of the request `r` for `who`
abbrev pub execution_of : Request → Identity → Execution
execution_of r who = record { server = r.server; tool = r.tool; args = r.args; identity = who }

execute-calls :
    (g : Gate) (t : Turn) (d : Decision) (who : Identity) (r : Request) (args : Json) (ts : Tasks)
    (x : Execution) (xs : List Execution)
    → (execute g t d who r args ts).calls ≡ x ∷ xs
    → x ≡ record { server = r.server; tool = r.tool; args = args; identity = who }
unfolding execute give_up
execute-calls g t d who r args ts x xs h = ground (
  arith,
  h,
  after_run-calls g t d
      (record { server = r.server; tool = r.tool; args = args; identity = who } ∷ []) t.outcome ts,
)

pub after_claim-calls :
    (g : Gate) (t : Turn) (d : Decision) (who : Identity) (r : Request) (ts : Tasks) (x : Execution)
    (xs : List Execution)
    → (after_claim g t d who r ts).calls ≡ x ∷ xs
    → IsVerified g.encoding t.later d.scope d.requester r × (x ≡ execution_of r who)
unfolding after_claim
after_claim-calls g t d who r ts x xs h =
    elim (Result-cases (validated_request g.encoding t.later d.scope d.requester r)) [
      | inl (args, good) ↦
          let (verified, same) =
            validated_request-IsVerified g.encoding t.later d.scope d.requester r args good in
          (verified, ground (arith, h, good, same, execute-calls g t d who r args ts x xs))
      | inr (reason, bad) ↦
          let (answer, ts') =
            finish d.request_id d.claim_id rejected (reason_of reason) t.finishing
              t.cancelled_finishing ts in
          absurd (ground (arith, h, bad, after_finish-calls t d (reason_of reason) [] answer ts'))
    ]

-- A decision that claims is the approval of a pending request that is verified.
pub decide_request-claims :
    (e : Encoding) (scrub : Text → Text) (now : ℕ) (d : Decision) (r : Request)
    → (decide_request e scrub now d r).0 ≡ true
    → (d.action ≡ approve)
      × (r.status ≡ pending)
      × IsVerified e now d.scope d.requester r
      × ((decide_request e scrub now d r).2
          ≡ record r { status = executing; claim_id = some d.claim_id })
unfolding decide_request is_pending
decide_request-claims e scrub now d r h =
    elim (Result-cases (validated_request e now d.scope d.requester r)) [
      | inl (args, good) ↦ (
        ground (arith, h, good),
        ground (arith, h),
        (validated_request-IsVerified e now d.scope d.requester r args good).0,
        ground (arith, h, good),
      )
      | inr (reason, bad) ↦ absurd (ground (arith, h, bad))
    ]
