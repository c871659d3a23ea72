-- ===== src/Gateway/Handler.antt =====
-- demo_agent/event_gateway.py: the signature of a request, and the handler. The secrets of the environment,
-- HMAC, UTF-8, `json.loads`, and what the reading of a body returns are arguments; a time is a number of
-- microseconds.
use ess_mcp.Prelude.{
  ℕ, ◌+◌, ◌-◌, ◌*◌, Bool, true, false, Option, none, some, List, [], ◌∷◌, ◌++◌, ltb, leb,
  if◌then◌else◌, length, all, Text, codes, text_eq, Result, ok, err, ◌>>=◌, ◌>>◌, require, ℤ, pos,
  negsuc,
}
use ess_mcp.Approvals.Json.{Json, object, Fields}
use ess_mcp.Skills.Session.{Python, int_of}
use ess_mcp.CaseDesk.Event.{CaseEvent}
use ess_mcp.Gateway.Events.{Settings, servicenow_event, salesforce_event}

pub record World : Type 0 where
  pub settings : Settings
  pub python : Python
  pub secret_for : Text → Text
  pub encode : Text → Text
  pub hmac : Text → Text → Text
  pub is_digit : ℕ → Bool
  pub loads : Text → Option Json

-- The statuses of a refusal. `crashed` is an exception that the handler does not raise on purpose: `int`
-- of a text of digits that are no decimal ones, or `compare_digest` of a text that is not ASCII.
pub data Refusal : Type 0 where
  not_found too_large unavailable unauthorized bad_request crashed : Refusal

abbrev pub max_body : ℕ
max_body = 65536

abbrev pub max_skew : ℕ
max_skew = 300

abbrev pub ticks : ℕ
ticks = 1_000_000

pub record Headers : Type 0 where
  pub timestamp : Text
  pub signature : Text
  pub content_length : Option ℕ

-- `sign`
unfoldable pub sign : World → Text → Text → Text → Text
sign w secret timestamp body =
    codes "v1=" ++ w.hmac secret (w.encode timestamp ++ (codes "." ++ body))

-- abs(a - b)
abbrev pub distance : ℕ → ℕ → ℕ
distance a b = (a - b) + (b - a)

-- `text.isdigit()`
unfoldable pub all_digits : World → Text → Bool
all_digits w [] = false
all_digits w (c ∷ s) = all w.is_digit (c ∷ s)

abbrev pub seconds_of : Option ℤ → Result Refusal ℕ
seconds_of none = err crashed
seconds_of (some (pos n)) = ok n
seconds_of (some (negsuc n)) = err crashed

-- `verify`
unfoldable pub verify : World → Text → Headers → Text → ℕ → Result Refusal (Unit {0})
verify w source h body now = do
  require (leb 32 (length (w.secret_for source))) unavailable
  require (all_digits w h.timestamp) unauthorized
  at ← seconds_of (int_of w.python h.timestamp)
  require (leb (distance now (at * ticks)) (max_skew * ticks)) unauthorized
  require (all (λ c. ltb c 128) h.signature) crashed
  require (text_eq (sign w (w.secret_for source) h.timestamp body) h.signature) unauthorized

-- the object that a body holds
abbrev pub object_or_refuse : Option Json → Result Refusal Fields
object_or_refuse (some (object fs)) = ok fs
object_or_refuse _ = err bad_request

-- The functions of `_NORMALIZERS`.
pub data Normalizer : Type 0 where
  of_servicenow of_salesforce : Normalizer

unfoldable pub normalize : Normalizer → Settings → ℕ → Fields → Option CaseEvent
normalize of_servicenow = servicenow_event
normalize of_salesforce = salesforce_event

-- `_NORMALIZERS.get`
unfoldable pub normalizer_of : Text → Option Normalizer
normalizer_of source =
    if text_eq source (codes "servicenow")
    then some of_servicenow
    else if text_eq source (codes "salesforce")
    then some of_salesforce
    else none

abbrev or_zero : Option ℕ → ℕ
or_zero none = 0
or_zero (some n) = n

-- The handler up to the event: the event, if the payload is one. `body` is what the reading of at most
-- one byte more than is allowed has returned.
unfoldable pub receive :
    World → Text → Headers → Text → Bool → ℕ → Result Refusal (Option CaseEvent)
unfolding verify normalizer_of normalize
receive w source h body desk_runs now = elim (normalizer_of source) [
  | none ↦ err not_found
  | some n ↦ do
    require (leb (or_zero h.content_length) max_body) too_large
    require (leb (length body) max_body) too_large
    verify w source h body now
    payload ← object_or_refuse (w.loads body)
    require desk_runs unavailable
    ok (normalize n w.settings now payload)
]

-- What the handler answers, with whether the desk has admitted the event, and the events that it hands
-- to `submit` of the case desk.
pub record Reply : Type 0 where
  pub status : Result Refusal Bool
  pub submitted : List CaseEvent

abbrev submit_event : (CaseEvent → Option Text) → Option CaseEvent → Reply
submit_event submit none = record { status = ok false; submitted = [] }
submit_event submit (some e) = record {
  status = ok (elim (submit e) [ none ↦ false | some key ↦ true ]);
  submitted = e ∷ [];
}

-- `handle`, where `submit` is what the desk returns for an event
unfoldable pub handle : World → (CaseEvent → Option Text) → Text → Headers → Text → Bool → ℕ → Reply
unfolding receive
handle w submit source h body desk_runs now = elim (receive w source h body desk_runs now) [
  | err refusal ↦ record { status = err refusal; submitted = [] }
  | ok event ↦ submit_event submit event
]
