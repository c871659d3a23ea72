-- ===== src/Gateway/Examples.antt =====
-- A signed webhook about an incident: the theorem of Gateway at it.
use ess_mcp.Prelude.{
  ℕ, ◌-◌, ◌≡◌, refl, Bool, true, ◌&&◌, Option, none, some, [], leb, if◌then◌else◌, length, Text,
  ascii, codes, lower, text_eq, member, drop_spaces,
}
use ess_mcp.Compliance.Identity.{strip}
use ess_mcp.Approvals.Json.{string, object, text_key, Fields, end, field}
use ess_mcp.Skills.Grants.{field_at}
use ess_mcp.Skills.Session.{int_of}
use ess_mcp.CaseDesk.Event.{CaseEvent}
use ess_mcp.Gateway.Events.{servicenow_event}
use ess_mcp.Gateway.Handler.{World, Headers, handle, sign, all_digits}

abbrev is_digit : ℕ → Bool
is_digit c = leb b'0' c && leb c b'9'

abbrev incident : Fields
incident =
    field (text_key (codes "table")) (string (codes "incident"))
      (field (text_key (codes "sys_id")) (string (codes "r1")) end)

abbrev world : World
world = record {
  settings = record {
    unicode = ascii;
    lower = lower;
    servicenow_user = codes "admin";
    salesforce_user = [];
  };
  python = record {
    unicode = ascii;
    casefold = lower;
    digit = λ c. if is_digit c then some (c - b'0') else none;
    loads = λ t. none;
  };
  secret_for = λ source. codes "0123456789abcdef0123456789abcdef";
  encode = λ t. t;
  hmac = λ key message. message;
  is_digit = is_digit;
  loads = λ body. some (object incident);
}

abbrev headers : Headers
headers = record { timestamp = codes "100"; signature = codes "v1=100.{}"; content_length = none }

abbrev submit : CaseEvent → Option Text
submit e = some (codes "key")

rings :
    length
      (handle world submit (codes "servicenow") headers (codes "{}") true 160_000_000).submitted
    ≡ 1
unfolding handle lower text_eq member field_at int_of drop_spaces strip all_digits sign
    servicenow_event
rings = refl

is_forged :
    (handle world submit
      (codes "servicenow")
      (record headers { signature = codes "v1=101.{}" })
      (codes "{}")
      true
      160_000_000).submitted
    ≡ []
unfolding handle text_eq int_of drop_spaces strip all_digits sign
is_forged = refl
