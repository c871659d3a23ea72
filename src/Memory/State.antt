-- ===== src/Memory/State.antt =====
-- demo_agent/conversation_memory.py: identifiers, scopes, the document of one scope and its
-- validation. `T` is the application's own part of the document, `tasks`.
use native.Mathlib.Decide.{ℕ_discrete}
use ess_mcp.Prelude.{
  ℕ, ◌+◌, Bool, true, false, not, ◌&&◌, Option, none, some, List, [], ◌∷◌, ltb, leb, ◌==◌,
  if◌then◌else◌, length, all, Text, Unicode, nonblank, text_eq, member, Result, ok, err, ◌>>◌,
  require,
}

-- The exceptions of the store, and those of Python that leave it.
pub data StoreError : Type 0 where
  value_error type_error key_error : StoreError
  configuration corrupt_state state_too_large concurrent_update unavailable closed : StoreError

abbrev pub max_id_chars : ℕ
max_id_chars = 512

abbrev pub max_content_chars : ℕ
max_content_chars = 8000

abbrev pub max_recent_messages : ℕ
max_recent_messages = 16

abbrev pub max_seen_ids : ℕ
max_seen_ids = 512

abbrev pub schema_version : ℕ
schema_version = 1

unfoldable pub identifier_is_valid : Unicode → Text → Bool
identifier_is_valid u value =
    ltb 0 (length value)
    && leb (length value) max_id_chars
    && nonblank u value
    && all u.printable value

pub record ChatScope : Type 0 where
  pub tenant_id : Text
  pub agent_id : Text
  pub conversation_id : Text

-- `ChatScope.__post_init__`
unfoldable pub chat_scope : Unicode → Text → Text → Text → Result StoreError ChatScope
unfolding identifier_is_valid
chat_scope u tenant agent conversation = do
  require (identifier_is_valid u tenant) value_error
  require (identifier_is_valid u agent) value_error
  require (identifier_is_valid u conversation) value_error
  ok (record { tenant_id = tenant; agent_id = agent; conversation_id = conversation })

unfoldable pub same_scope : ChatScope → ChatScope → Bool
same_scope a b =
    text_eq a.tenant_id b.tenant_id
    && text_eq a.agent_id b.agent_id
    && text_eq a.conversation_id b.conversation_id

pub data Role : Type 0 where
  user assistant system tool : Role

pub record Message : Type 0 where
  pub role : Role
  pub content : Text
  pub sender_id : Text
  pub activity_id : Text
  pub at : ℕ

pub record State (T : Type 0) : Type 0 where
  pub version : ℕ
  pub scope : ChatScope
  pub summary : Text
  pub recent : List Message
  pub seen : List Text
  pub tasks : T
  pub welcomed : Bool
  pub active : Bool
  pub updated_at : ℕ

-- `no_tasks` is the empty object.
unfoldable pub fresh_state : {T : Type 0} → T → ChatScope → ℕ → State T
fresh_state no_tasks scope now = record {
  version = schema_version;
  scope = scope;
  summary = [];
  recent = [];
  seen = [];
  tasks = no_tasks;
  welcomed = false;
  active = false;
  updated_at = now;
}

-- The options of `Store.__init__`; times are whole seconds.
pub record Options : Type 0 where
  pub ttl_seconds : ℕ
  pub max_compressed_bytes : ℕ
  pub max_uncompressed_bytes : ℕ
  pub max_attempts : ℕ

unfoldable pub store_options : ℕ → ℕ → ℕ → ℕ → Result StoreError Options
store_options ttl compressed uncompressed attempts = do
  require (ltb 0 ttl) configuration
  require (ltb 0 compressed) configuration
  require (ltb 0 uncompressed) configuration
  require (leb 1 attempts && leb attempts 5) configuration
  ok (record {
    ttl_seconds = ttl;
    max_compressed_bytes = compressed;
    max_uncompressed_bytes = uncompressed;
    max_attempts = attempts;
  })

-- `len(text.encode("utf-8"))`; a surrogate cannot be encoded.
utf8_width : ℕ → Option ℕ
utf8_width c =
    if ltb c 0x80
    then some 1
    else if ltb c 0x800
    then some 2
    else if leb 0xD800 c && leb c 0xDFFF
    then none
    else if ltb c 0x10000
    then some 3
    else some 4

abbrev plus : Option ℕ → Option ℕ → Option ℕ
plus (some a) (some b) = some (a + b)
plus _ none = none
plus none _ = none

unfoldable pub utf8_size : Text → Option ℕ
unfolding utf8_width
utf8_size [] = some 0
utf8_size (c ∷ s) = plus (utf8_width c) (utf8_size s)

unfoldable pub validate_text : Options → Text → ℕ → Result StoreError (Unit {0})
unfolding utf8_size
validate_text o text limit =
    if ltb limit (length text) then err state_too_large else elim (utf8_size text) [
      | none ↦ err corrupt_state
      | some size ↦ if ltb o.max_uncompressed_bytes size then err state_too_large else ok tt
    ]

unfoldable pub validate_messages : Unicode → Options → List Message → Result StoreError (Unit {0})
unfolding validate_text identifier_is_valid
validate_messages u o [] = ok tt
validate_messages u o (m ∷ ms) = do
  validate_text o m.content max_content_chars
  require (identifier_is_valid u m.sender_id && identifier_is_valid u m.activity_id) corrupt_state
  validate_messages u o ms

-- `len(set(seen)) == len(seen)`
unfoldable pub distinct : List Text → Bool
distinct [] = true
distinct (s ∷ ss) = not (member s ss) && distinct ss

-- `tasks_valid` is the validation of the application's part.
unfoldable pub validate_state :
    {T : Type 0}
    → Unicode
    → Options
    → (T → Result StoreError (Unit {0}))
    → ChatScope
    → State T
    → Result StoreError (Unit {0})
unfolding validate_text validate_messages identifier_is_valid same_scope distinct
validate_state u o tasks_valid scope s = do
  require (s.version == schema_version) corrupt_state
  require (same_scope s.scope scope) corrupt_state
  validate_text o s.summary max_content_chars
  require (leb (length s.recent) max_recent_messages) state_too_large
  validate_messages u o s.recent
  require (all (identifier_is_valid u) s.seen) corrupt_state
  require (leb (length s.seen) max_seen_ids) state_too_large
  require (distinct s.seen) corrupt_state
  tasks_valid s.tasks

-- `_same_json` decides that two documents are the same.
unfoldable pub State-discrete : {T : Type 0} → Discrete T → Discrete (State T)
State-discrete d = hlevel (d, ℕ_discrete)
