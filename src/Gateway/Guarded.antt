-- ===== src/Gateway/Guarded.antt =====
-- demo_agent/event_gateway.py: what reaches the case desk.
use ess_mcp.Prelude.{
  ℕ, ◌*◌, ◌≤◌, ◌≡◌, Bool, true, false, Option, none, some, List, [], ◌∷◌, length, Text, ok, pos,
}
use ess_mcp.Approvals.Json.{Json, Fields}
use ess_mcp.Skills.Session.{int_of}
use ess_mcp.CaseDesk.Event.{CaseEvent}
use ess_mcp.Gateway.Events.{is_blank}
use ess_mcp.Gateway.Handler.{
  World, max_body, max_skew, ticks, Headers, sign, distance, verify, Normalizer, normalize,
}

-- The request carries the signature of its time and body by a secret of at least 32 bytes, its time is at
-- most five minutes off, and its body is not too long.
pub record IsGenuine (w : World) (source : Text) (h : Headers) (body : Text) (now : ℕ)
    : Type 0 where
  pub secret : 32 ≤ length (w.secret_for source)
  pub signed : h.signature ≡ sign w (w.secret_for source) h.timestamp body
  pub time : ℕ
  pub stamped : int_of w.python h.timestamp ≡ some (pos time)
  pub recent : distance now (time * ticks) ≤ max_skew * ticks

-- Where an event comes from, and how long its texts can be.
pub record IsBounded (e : CaseEvent) : Type 0 where
  pub named : is_blank e.record_id ≡ false
  pub record_id : length e.record_id ≤ 64
  pub number : length e.number ≤ 40
  pub title : length e.title ≤ 240
  pub text : length e.text ≤ 3000

IfEvent : (CaseEvent → Type 0) → Option CaseEvent → Type 0
IfEvent P none = Unit {0}
IfEvent P (some e) = P e

-- What is known of an event that is handed to the desk.
pub record IsAdmitted (w : World) (source : Text) (h : Headers) (body : Text) (desk_runs : Bool)
    (now : ℕ) (e : CaseEvent) : Type 0 where
  pub genuine : IsGenuine w source h body now
  pub short : length body ≤ max_body
  pub running : desk_runs ≡ true
  pub bounded : IsBounded e

abbrev pub AllEvents : (CaseEvent → Type 0) → List CaseEvent → Type 0
AllEvents P [] = Unit {0}
AllEvents P (e ∷ es) = P e × AllEvents P es

module _ (w : World) (source : Text) (h : Headers) (body : Text) (desk_runs : Bool) (now : ℕ) where
  -- What the checks behind the choice of the normalizer leave.
  record Passes (n : Normalizer) (o : Option CaseEvent) : Type 0 where
    short : length body ≤ max_body
    verified : verify w source h body now ≡ ok tt
    running : desk_runs ≡ true
    payload : Fields
    found : o ≡ normalize n w.settings now payload
