-- ===== src/CaseDesk/Event.antt =====
-- demo_agent/case_desk.py, `CaseEvent`: a normalized doorbell. Its sources are texts that the code
-- checks; here they are constructors. The redaction, the digest `case_key` and the check of a document's
-- address are parameters.
use ess_mcp.Prelude.{
  ℕ, ◌-◌, Bool, true, false, not, ◌&&◌, ◌||◌, Option, none, some, List, [], ◌∷◌, ◌++◌, leb, ◌==◌,
  if◌then◌else◌, length, take, Text, Unicode, codes, text_eq, member, Dict, lookup, insert,
}
use ess_mcp.Compliance.Identity.{strip}

pub data Source : Type 0 where
  servicenow salesforce coupa workday email teams document timer sweep operator approval review :
      Source

pub data Function : Type 0 where
  it hr compliance supply : Function

pub record Surroundings : Type 0 where
  pub unicode : Unicode
  pub scrub : Text → Text
  pub case_key : List Text → Text
  pub document_url : Text → Text
  pub printed : ℕ → Text

abbrev pub max_text : ℕ
max_text = 4000

keep_shown : Unicode → Text → Text
keep_shown u [] = []
keep_shown u (c ∷ s) =
    let rest = keep_shown u s in if u.printable c || (c == 10) || (c == 9) then c ∷ rest else rest

-- `_clean` of a text
unfoldable pub clean : Surroundings → Text → ℕ → Text
unfolding keep_shown
clean w value limit =
    let text = strip w.unicode (w.scrub (keep_shown w.unicode value)) in
    if leb (length text) limit then text else take (limit - 1) text ++ codes "…"

abbrev pub is_empty : Text → Bool
is_empty [] = true
is_empty (c ∷ s) = false

abbrev pub or_text : Text → Text → Text
or_text [] t = t
or_text (c ∷ s) t = c ∷ s

-- a value that is present, or the empty text
abbrev pub text_at : Text → Dict Text → Text
text_at k d = elim (lookup k d) [ none ↦ [] | some t ↦ t ]

-- the known keys with a value, each cleaned to its limit
clean_dict : Surroundings → List Text → (Text → ℕ) → Dict Text → Dict Text
clean_dict w known limit [] = []
clean_dict w known limit ((k, v) ∷ d) =
    let rest = clean_dict w known limit d in
    if member k known && not (is_empty v) then (k, clean w v (limit k)) ∷ rest else rest

pub record CaseEvent : Type 0 where
  pub source : Source
  pub kind : Text
  pub function : Option Function
  pub system : Text
  pub record_id : Text
  pub number : Text
  pub title : Text
  pub text : Text
  pub actor : Dict Text
  pub channel : Dict Text
  pub event_id : Text
  pub at : ℕ
  pub explicit : Text

actor_keys : List Text
actor_keys =
    codes "name"
    ∷ codes "email"
    ∷ codes "aadObjectId"
    ∷ codes "systemUserId"
    ∷ codes "userName"
    ∷ codes "external"
    ∷ []

channel_keys : List Text
channel_keys =
    codes "kind"
    ∷ codes "chatId"
    ∷ codes "messageId"
    ∷ codes "conversationId"
    ∷ codes "subject"
    ∷ codes "document"
    ∷ codes "instanceAppId"
    ∷ codes "skill"
    ∷ codes "documentId"
    ∷ codes "commentId"
    ∷ codes "threadId"
    ∷ codes "comment"
    ∷ codes "commenter"
    ∷ []

unfoldable pub name_of : Source → Text
name_of servicenow = codes "servicenow"
name_of salesforce = codes "salesforce"
name_of coupa = codes "coupa"
name_of workday = codes "workday"
name_of email = codes "email"
name_of teams = codes "teams"
name_of document = codes "document"
name_of timer = codes "timer"
name_of sweep = codes "sweep"
name_of operator = codes "operator"
name_of approval = codes "approval"
name_of review = codes "review"

-- `CaseEvent.__post_init__`
unfoldable pub case_event : Surroundings → CaseEvent → CaseEvent
unfolding clean_dict actor_keys channel_keys
case_event w e =
    let kind = or_text (clean w e.kind 40) (codes "updated") in
    let record_id = clean w e.record_id 120 in
    let text = clean w e.text max_text in
    let kept =
      clean_dict w channel_keys (λ k. if text_eq k (codes "comment") then 1200 else 400)
        e.channel in
    let url = w.document_url (text_at (codes "documentUrl") e.channel) in
    record {
      source = e.source;
      kind = kind;
      function = e.function;
      system = clean w e.system 40;
      record_id = record_id;
      number = clean w e.number 60;
      title = clean w e.title 240;
      text = text;
      actor = clean_dict w actor_keys (λ k. 200) e.actor;
      channel = if is_empty url then kept else insert (codes "documentUrl") url kept;
      event_id =
          or_text (clean w e.event_id 200)
            (w.case_key (name_of e.source ∷ kind ∷ record_id ∷ text ∷ w.printed e.at ∷ []));
      at = e.at;
      explicit = e.explicit;
    }

-- an alias of one kind, where its parts are there
alias_if : Bool → Text → List Text → List Text
alias_if there name rest = if there then name ∷ rest else rest

-- `CaseEvent.aliases`
unfoldable pub aliases : Surroundings → CaseEvent → List Text
unfolding alias_if
aliases w e =
    let kind = text_at (codes "kind") e.channel in
    let conversation = text_at (codes "conversationId") e.channel in
    let chat = text_at (codes "chatId") e.channel in
    let thread = text_at (codes "threadId") e.channel in
    let document =
      or_text (text_at (codes "documentId") e.channel)
        (w.case_key (text_at (codes "documentUrl") e.channel ∷ [])) in
    alias_if (not (is_empty e.system) && not (is_empty e.record_id))
      (e.system ++ (codes ":" ++ e.record_id))
      (alias_if (text_eq kind (codes "email") && not (is_empty conversation))
        (codes "email:" ++ conversation)
        (alias_if (text_eq kind (codes "teams-group") && not (is_empty chat))
          (codes "chat:" ++ chat)
          (alias_if (text_eq kind (codes "document") && not (is_empty thread))
            (codes "doc:" ++ (document ++ (codes ":" ++ thread))) [])))
