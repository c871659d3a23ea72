-- ===== src/Approvals/Json.antt =====
-- demo_agent/tool_approvals.py: the arguments of a tool call, and the traversal of `_validated_call`
-- that bounds them. A Python value that is no JSON value is `other`, a key that is no text too.
pub mod Size
use ess_mcp.Prelude.{
  ℕ, suc, ◌+◌, ◌-◌, ◌≤◌, ◌≡◌, refl, Bool, true, false, not, ◌&&◌, ◌||◌, Option, none, some, List,
  [], ◌∷◌, ◌++◌, map, arith, ltb, leb, ◌==◌, if◌then◌else◌, length, any, all, Text, codes, member,
  Result, ok, err, ◌>>=◌, ◌>>◌, require,
}
use ess_mcp.Memory.State.{utf8_size}

pub data Key : Type 0 where
  text_key : Text → Key
  other_key : Key

-- A number is its printed text; a float is finite or not.
mutual
  pub data Json : Type 0 where
    null : Json
    bool : Bool → Json
    integer : Text → Json
    float : Bool → Text → Json
    string : Text → Json
    array : Items → Json
    object : Fields → Json
    other : Json

  pub data Items : Type 0 where
    nil : Items
    item : Json → Items → Items

  pub data Fields : Type 0 where
    end : Fields
    field : Key → Json → Fields → Fields

-- The texts of `_InvalidRequest`.
pub data Invalid : Type 0 where
  server_name tool_name not_object too_deep too_large credentials not_finite string_keys : Invalid
  plain_values bounded_json unverified expired : Invalid

-- What is not modelled: the redaction patterns of `_has_credentials`, and Unicode case folding.
pub record Scanner : Type 0 where
  pub has_credentials : Text → Bool
  pub casefold : Text → Text

abbrev pub max_json_depth : ℕ
max_json_depth = 32

abbrev pub max_argument_bytes : ℕ
max_argument_bytes = 16000

-- keeps [a-z0-9]
abbrev keep_plain : Text → Text
keep_plain [] = []
keep_plain (c ∷ s) =
    let rest = keep_plain s in
    if (leb b'a' c && leb c b'z') || (leb b'0' c && leb c b'9') then c ∷ rest else rest

is_prefix : Text → Text → Bool
is_prefix [] s = true
is_prefix (c ∷ p) [] = false
is_prefix (c ∷ p) (d ∷ s) = c == d && is_prefix p s

-- `part in text`
unfoldable pub contains : Text → Text → Bool
unfolding is_prefix
contains p [] = is_prefix p []
contains p (c ∷ s) = is_prefix p (c ∷ s) || contains p s

-- `text.endswith(p)`
ends_with : Text → Text → Bool
unfolding is_prefix
ends_with p [] = is_prefix p []
ends_with p (c ∷ s) = (is_prefix p (c ∷ s) && (length p == length (c ∷ s))) || ends_with p s

credential_names : List Text
credential_names =
    codes "auth"
    ∷ codes "oauth"
    ∷ codes "authorization"
    ∷ codes "proxyauthorization"
    ∷ codes "authentication"
    ∷ codes "authheader"
    ∷ codes "authheaders"
    ∷ codes "cookie"
    ∷ codes "cookies"
    ∷ codes "setcookie"
    ∷ codes "apikey"
    ∷ codes "xapikey"
    ∷ codes "accountkey"
    ∷ codes "accesskey"
    ∷ codes "privatekey"
    ∷ codes "connectionstring"
    ∷ codes "clientassertion"
    ∷ codes "sas"
    ∷ codes "pwd"
    ∷ []

credential_parts : List Text
credential_parts =
    codes "authorization"
    ∷ codes "authentication"
    ∷ codes "authheader"
    ∷ codes "token"
    ∷ codes "password"
    ∷ codes "passwd"
    ∷ codes "secret"
    ∷ codes "credential"
    ∷ codes "apikey"
    ∷ codes "accountkey"
    ∷ codes "privatekey"
    ∷ codes "connectionstring"
    ∷ []

-- `_credential_key`
unfoldable pub credential_key : Scanner → Text → Bool
unfolding contains ends_with credential_names credential_parts
credential_key s key =
    let normalized = keep_plain (s.casefold key) in
    member normalized credential_names
    || ends_with (codes "auth") normalized
    || any (λ part. contains part normalized) credential_parts

-- what a text costs of the budget; one that has no UTF-8 is refused
unfoldable pub spend : ℕ → ℕ → Result Invalid ℕ
spend cost budget = if ltb budget cost then err too_large else ok (budget - cost)

unfoldable pub spend_text : Text → ℕ → Result Invalid ℕ
unfolding spend utf8_size
spend_text s budget = elim (utf8_size s) [
  | none ↦ err bounded_json
  | some size ↦ spend (size + 2) budget
]

unfoldable pub visit_text : Scanner → Text → ℕ → ℕ → Result Invalid ℕ
unfolding spend_text
visit_text s value depth budget = if ltb (max_json_depth - 2) depth then err too_deep else (do
  left ← spend_text value budget
  require (not (s.has_credentials value)) credentials
  ok left)

-- what every value costs
unfoldable pub enter : ℕ → ℕ → Result Invalid ℕ
unfolding spend
enter depth budget = if ltb (max_json_depth - 2) depth then err too_deep else spend 1 budget

-- `visit`: the budget that is left
unfoldable mutual
  pub visit : Scanner → Json → ℕ → ℕ → Result Invalid ℕ
  visit s null depth budget = enter depth budget
  visit s (bool b) depth budget = enter depth budget
  visit s (integer n) depth budget = enter depth budget
  visit s (float finite n) depth budget =
      enter depth budget >>= λ left. if finite then ok left else err not_finite
  visit s (string t) depth budget = visit_text s t depth budget
  visit s (array xs) depth budget = enter depth budget >>= λ left. visit_items s xs (suc depth) left
  visit s (object fs) depth budget =
      enter depth budget >>= λ left. visit_fields s fs (suc depth) left
  visit s other depth budget = enter depth budget >>= λ _. err plain_values

  pub visit_items : Scanner → Items → ℕ → ℕ → Result Invalid ℕ
  visit_items s nil depth budget = ok budget
  visit_items s (item x xs) depth budget =
      visit s x depth budget >>= λ left. visit_items s xs depth left

  pub visit_fields : Scanner → Fields → ℕ → ℕ → Result Invalid ℕ
  visit_fields s end depth budget = ok budget
  visit_fields s (field other_key x fs) depth budget = err string_keys
  visit_fields s (field (text_key k) x fs) depth budget =
      if credential_key s k
      then err credentials
      else (visit_text s k depth budget >>= λ left.
          visit s x depth left >>= λ rest. visit_fields s fs depth rest)
