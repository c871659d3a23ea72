-- ===== src/Gateway/Events.antt =====
-- demo_agent/event_gateway.py: what a payload of ServiceNow or Salesforce is an event of. The names of the
-- integration users come from the environment, and `str.lower` is Python's: they are arguments, as is
-- the time that a `CaseEvent` takes when it is made.
use ess_mcp.Prelude.{
  ℕ, Bool, true, false, not, ◌&&◌, ◌||◌, Option, none, some, List, [], ◌∷◌, ◌++◌, if◌then◌else◌,
  take, Text, String, Unicode, codes, text_eq, member,
}
use ess_mcp.Compliance.Identity.{strip}
use ess_mcp.Approvals.Json.{
  Json, null, bool, integer, float, string, array, object, other, nil, item, Fields, end, field,
}
use ess_mcp.Skills.Grants.{field_at, after_prefix}
use ess_mcp.CaseDesk.Event.{servicenow, salesforce, it, compliance, CaseEvent}

pub record Settings : Type 0 where
  pub unicode : Unicode
  pub lower : Text → Text
  pub servicenow_user : Text
  pub salesforce_user : Text

abbrev pub is_blank : Text → Bool
is_blank [] = true
is_blank (c ∷ s) = false

-- `_text`
unfoldable pub text_of : Settings → ℕ → Option Json → Text
text_of g limit (some (string t)) = take limit (strip g.unicode t)
text_of g limit _ = []

-- whether Python takes a value for true
unfoldable pub truthy : Option Json → Bool
truthy none = false
truthy (some null) = false
truthy (some (bool b)) = b
truthy (some (integer t)) = not (text_eq t (codes "0"))
truthy (some (float finite t)) = not (text_eq t (codes "0.0") || text_eq t (codes "-0.0"))
truthy (some (string t)) = not (is_blank t)
truthy (some (array nil)) = false
truthy (some (array (item j js))) = true
truthy (some (object end)) = false
truthy (some (object (field k v fs))) = true
truthy (some other) = true

-- `a or b`
abbrev pub or_json : Option Json → Option Json → Option Json
or_json a b = if truthy a then a else b

-- `value if isinstance(value, dict) else {}`
abbrev pub fields_or_none : Option Json → Fields
fields_or_none (some (object fs)) = fs
fields_or_none _ = end

-- `payload.get(name)`
abbrev pub at : String → Fields → Option Json
at name fs = field_at (codes name) fs

-- `_person`, as the dictionary that it makes
pub record Person : Type 0 where
  pub name : Text
  pub email : Text
  pub system_user_id : Text
  pub user_name : Text

unfoldable pub person : Settings → Option Json → Person
unfolding text_of
person g value =
    let fs = fields_or_none value in
    record {
      name = text_of g 120 (at "name" fs);
      email = g.lower (text_of g 200 (at "email" fs));
      system_user_id = text_of g 80 (or_json (at "sys_id" fs) (at "id" fs));
      user_name = text_of g 120 (or_json (at "user_name" fs) (at "username" fs));
    }

unfoldable pub actor_of : Person → List (Text × Text)
actor_of p =
    (codes "name", p.name)
    ∷ (codes "email", p.email)
    ∷ (codes "systemUserId", p.system_user_id)
    ∷ (codes "userName", p.user_name)
    ∷ []

-- The change was made by the integration user: a comment of its own, or fields that it has set.
unfoldable pub is_echo : Text → Text → Text → Bool
is_echo integration comment_by changed_by =
    (not (is_blank comment_by) && text_eq comment_by integration)
    || (is_blank comment_by && text_eq changed_by integration)

abbrev pub kind_of : Bool → Text → Text
kind_of created comment_by =
    if created
    then codes "created"
    else if is_blank comment_by
    then codes "updated"
    else codes "comment"

abbrev pub is_insert : Settings → Fields → Bool
is_insert g payload = text_eq (text_of g 20 (at "operation" payload)) (codes "insert")

abbrev pub comment_of : Fields → Fields
comment_of payload = fields_or_none (at "comment" payload)

abbrev pub comment_by : Settings → Fields → Text
comment_by g payload = g.lower (text_of g 120 (at "by" (comment_of payload)))

-- the first test of `servicenow_event`
unfoldable pub is_servicenow_case : Settings → Fields → Bool
unfolding text_of
is_servicenow_case g payload =
    member (text_of g 40 (at "table" payload)) (codes "incident" ∷ codes "sc_req_item" ∷ [])
    && not (is_blank (text_of g 64 (at "sys_id" payload)))

-- the integration user's own change
unfoldable pub servicenow_echo : Settings → Fields → Bool
unfolding text_of is_echo
servicenow_echo g payload =
    not (is_insert g payload)
    && is_echo (g.lower g.servicenow_user) (comment_by g payload)
        (g.lower (text_of g 120 (at "updated_by" payload)))

-- the event that `servicenow_event` makes
unfoldable pub servicenow_case : Settings → ℕ → Fields → CaseEvent
unfolding text_of person actor_of
servicenow_case g now payload = record {
  source = servicenow;
  kind = kind_of (is_insert g payload) (comment_by g payload);
  function = some it;
  system = codes "servicenow";
  record_id = text_of g 64 (at "sys_id" payload);
  number = text_of g 40 (at "number" payload);
  title = text_of g 240 (at "short_description" payload);
  text = text_of g 3000 (at "text" (comment_of payload));
  actor = actor_of (person g (at "caller" payload));
  channel = (codes "kind", codes "servicenow") ∷ [];
  event_id = codes "sn:" ++ text_of g 120 (or_json (at "event_id" payload) (at "sys_id" payload));
  at = now;
  explicit = [];
}

-- `servicenow_event`
unfoldable pub servicenow_event : Settings → ℕ → Fields → Option CaseEvent
unfolding is_servicenow_case servicenow_echo servicenow_case
servicenow_event g now payload =
    if not (is_servicenow_case g payload) || servicenow_echo g payload
    then none
    else some (servicenow_case g now payload)

abbrev pub starts_with_500 : Text → Bool
starts_with_500 s = elim (after_prefix (codes "500") s) [ none ↦ false | some rest ↦ true ]

-- the contact, with the address that was supplied where it has none
unfoldable pub contact_of : Settings → Fields → Person
unfolding person text_of
contact_of g payload =
    let p = person g (at "contact" payload) in
    if is_blank p.email
    then record p { email = g.lower (text_of g 200 (at "supplied_email" payload)) }
    else p

abbrev pub case_id_of : Settings → Fields → Text
case_id_of g payload = text_of g 18 (or_json (at "case_id" payload) (at "id" payload))

-- the integration user's own change, if there is such a user
unfoldable pub salesforce_echo : Settings → Fields → Bool
unfolding text_of is_echo
salesforce_echo g payload =
    not (is_insert g payload)
    && not (is_blank (g.lower g.salesforce_user))
    && is_echo (g.lower g.salesforce_user) (comment_by g payload)
        (g.lower (text_of g 120 (at "last_modified_by" payload)))

-- the event that `salesforce_event` makes
unfoldable pub salesforce_case : Settings → ℕ → Fields → CaseEvent
unfolding text_of contact_of actor_of
salesforce_case g now payload = record {
  source = salesforce;
  kind = kind_of (is_insert g payload && is_blank (comment_by g payload)) (comment_by g payload);
  function = some compliance;
  system = codes "salesforce";
  record_id = case_id_of g payload;
  number = text_of g 20 (at "case_number" payload);
  title = text_of g 240 (at "subject" payload);
  text = text_of g 3000 (at "text" (comment_of payload));
  actor = actor_of (contact_of g payload);
  channel = (codes "kind", codes "salesforce") ∷ [];
  event_id =
      codes "sf:"
      ++ text_of g 120 (or_json (at "event_id" payload) (some (string (case_id_of g payload))));
  at = now;
  explicit = [];
}

-- `salesforce_event`
unfoldable pub salesforce_event : Settings → ℕ → Fields → Option CaseEvent
unfolding text_of salesforce_echo salesforce_case
salesforce_event g now payload =
    if not (starts_with_500 (case_id_of g payload)) || salesforce_echo g payload
    then none
    else some (salesforce_case g now payload)
