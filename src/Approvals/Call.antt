-- ===== src/Approvals/Call.antt =====
-- demo_agent/tool_approvals.py, `_validated_call`: which calls may be proposed at all.
pub mod Checked
use ess_mcp.Prelude.{
  ℕ, suc, ◌+◌, ◌-◌, ◌≤◌, ◌≡◌, refl, Bool, true, false, not, ◌&&◌, ◌||◌, Option, none, some, List,
  [], ◌∷◌, ltb, leb, ◌==◌, if◌then◌else◌, length, all, Text, codes, member, Result, ok, err, ◌>>=◌,
  ◌>>◌, require,
}
use ess_mcp.Memory.State.{utf8_size}
use ess_mcp.Approvals.Json.{
  Json, object, Invalid, server_name, tool_name, not_object, too_large, credentials, bounded_json,
  Scanner, visit, max_argument_bytes,
}

-- json.dumps and hashlib: the compact text of a value with sorted keys, none where it raises, and
-- the digest of the text of {server, tool, args}.
pub record Encoding : Type 0 where
  pub scanner : Scanner
  pub dumps : Json → Option Text
  pub sha256 : Text → Text → Json → Text

abbrev pub servers : List Text
servers = codes "workday" ∷ codes "servicenow" ∷ codes "coupa" ∷ codes "salesforce" ∷ []

-- `_TOOL.fullmatch`
unfoldable pub is_tool_name : Text → Bool
is_tool_name s =
    leb 1 (length s)
    && leb (length s) 64
    && all
        (λ c.
          (leb b'0' c && leb c b'9')
          || (leb b'a' c && leb c b'z')
          || (leb b'A' c && leb c b'Z')
          || (c == b'_'))
        s

abbrev pub is_object : Json → Bool
is_object (object fs) = true
is_object _ = false

-- the checks of the encoded arguments
unfoldable pub check_text : Encoding → Option Text → Result Invalid Text
unfolding utf8_size
check_text e none = err bounded_json
check_text e (some raw) = elim (utf8_size raw) [
  | none ↦ err bounded_json
  | some size ↦
      if ltb max_argument_bytes size
      then err too_large
      else if e.scanner.has_credentials raw
      then err credentials
      else ok raw
]

-- The digest and the encoded arguments; the snapshot of the arguments is the value itself, which
-- json.loads gives back.
unfoldable pub validated_call : Encoding → Text → Text → Json → Result Invalid (Text × Text)
unfolding is_tool_name check_text
validated_call e server tool args = do
  require (member server servers) server_name
  require (is_tool_name tool) tool_name
  require (is_object args) not_object
  _ ← visit e.scanner args 0 max_argument_bytes
  raw ← check_text e (e.dumps args)
  ok (e.sha256 server tool args, raw)

-- `tool_call_digest`
unfoldable pub tool_call_digest : Encoding → Text → Text → Json → Result Invalid Text
unfolding validated_call
tool_call_digest e server tool args = do c ← validated_call e server tool args; ok c.0
