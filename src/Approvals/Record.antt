-- ===== src/Approvals/Record.antt =====
-- demo_agent/tool_approvals.py: the stored request, the check of it, and what a person is told.

pub mod Limits
use ess_mcp.Prelude.{
  ℕ, suc, ◌+◌, ◌-◌, ◌*◌, ◌≤◌, ◌≡◌, refl, Bool, true, false, not, ◌&&◌, ◌||◌, Option, none, some,
  List, [], ◌∷◌, ◌++◌, map, ltb, leb, ◌==◌, if◌then◌else◌, length, take, any, all, Text, codes,
  text_eq, member, Result, ok, err, ◌>>=◌, ◌>>◌, require,
}
use ess_mcp.Memory.State.{ChatScope, same_scope}
use ess_mcp.Approvals.Json.{Json, Invalid, unverified, expired}
use ess_mcp.Approvals.Call.{Encoding, validated_call}

abbrev pub approval_ttl_seconds : ℕ
approval_ttl_seconds = 15 * 60

abbrev pub max_records : ℕ
max_records = 50

abbrev pub max_pending : ℕ
max_pending = 20

abbrev pub max_result_chars : ℕ
max_result_chars = 8000

abbrev pub max_message_chars : ℕ
max_message_chars = 1800

pub data Status : Type 0 where
  pending executing completed rejected unknown : Status

pub record Request : Type 0 where
  pub server : Text
  pub tool : Text
  pub args : Json
  pub digest : Text
  pub requester_id : Text
  pub scope : ChatScope
  pub expires_at : ℕ
  pub status : Status
  pub at : ℕ
  pub result : Text
  pub claim_id : Option Text

unfoldable pub is_pending : Request → Bool
is_pending r = elim r.status [ pending ↦ true | _ ↦ false ]

unfoldable pub is_executing : Request → Bool
is_executing r = elim r.status [ executing ↦ true | _ ↦ false ]

-- `record.get("status") in {"completed", "rejected"}`
unfoldable pub is_settled : Request → Bool
is_settled r = elim r.status [ completed ↦ true | rejected ↦ true | _ ↦ false ]

unfoldable pub denied_text : Text
denied_text =
    codes
      "Tool approval requires an authorized, verified user in the configured tenant and this chat."

unfoldable pub not_found_text : Text
not_found_text = codes "No approval for that ID is available to you in this chat."

unfoldable pub invalid_text : Text
invalid_text = codes "This approval could not be verified. Nothing was run; request a new approval."

unfoldable pub expired_text : Text
expired_text = codes "This approval has expired. Nothing was run; request a new approval."

unfoldable pub rejected_text : Text
rejected_text = codes "This approval was rejected. Nothing was run."

unfoldable pub save_failed_text : Text
save_failed_text = codes "I could not confirm that the approval was saved. No tool was run."

-- `_unknown`
unfoldable pub unknown_text : Text → Text
unknown_text id =
    codes "Request "
    ++ id
    ++ codes
        " has an unknown outcome and may already have taken effect. It will not be replayed. Check the source system before requesting another action."

abbrev pub shortened : Text
shortened = codes "\n[Result shortened; the bounded result is saved.]"

abbrev pub or_no_text : Text → Text
or_no_text [] = codes "No text result was returned."
or_no_text (c ∷ s) = c ∷ s

-- the message of a completed request, cut to the bound; `safe` is the redacted result
unfoldable pub completed_text : Text → Text → Text
completed_text id safe =
    let message = codes "Request " ++ (id ++ (codes " completed.\n" ++ or_no_text safe)) in
    if ltb max_message_chars (length message)
    then take (max_message_chars - length shortened) message ++ shortened
    else message

-- `_safe_result`: a surrogate becomes a question mark, and `scrub` is the redaction of
-- conversation_memory.py.
unfoldable pub safe_result : (Text → Text) → Text → Text
safe_result scrub text =
    take max_result_chars (scrub (map (λ c. if leb 0xD800 c && leb c 0xDFFF then b'?' else c) text))

-- `_status_message`
unfoldable pub status_message : (Text → Text) → Text → Request → Text
unfolding unknown_text completed_text safe_result
status_message scrub id r = elim r.status [
  | executing ↦
      codes "Request "
      ++ id
      ++ codes " is executing or may still be running. It will not be replayed."
  | unknown ↦ unknown_text id
  | rejected ↦
      if text_eq r.result expired_text
        || text_eq r.result invalid_text
        || text_eq r.result rejected_text
      then r.result
      else rejected_text
  | completed ↦ completed_text id (safe_result scrub r.result)
  | pending ↦ invalid_text
]

-- the three HTML delimiters of a preview, escaped
unfoldable pub escaped : Text → Text
escaped [] = []
escaped (c ∷ s) =
    let rest = escaped s in
    if c == b'&'
    then codes "\\u0026" ++ rest
    else if c == b'<'
    then codes "\\u003c" ++ rest
    else if c == b'>'
    then codes "\\u003e" ++ rest
    else c ∷ rest

abbrev pub cut_marker : Text
cut_marker = codes " … [argument preview shortened]"

unfoldable pub approval_prefix : Text → Text → Text → Text
approval_prefix server tool id =
    codes "Approval needed for "
    ++ (server
        ++ (codes "." ++ (tool ++ (codes " (request " ++ (id ++ codes ").\nArguments (data): ")))))

unfoldable pub approval_suffix : Text → Text
approval_suffix id =
    codes
      "\nNothing has run yet. Reply 'yes' to go ahead or 'no' to cancel (with several waiting, use 'approve "
    ++ (id
        ++ (codes "' or 'reject "
            ++ (id ++ codes "'). Only you can answer, and it expires in 15 minutes.")))

-- `_approval_message`, where the prefix and the suffix leave room for the marker
unfoldable pub approval_message : (Json → Text) → Text → Request → Text
unfolding escaped approval_prefix approval_suffix
approval_message printed id r =
    let preview = escaped (printed r.args) in
    let start = approval_prefix r.server r.tool id in
    let close = approval_suffix id in
    let available = max_message_chars - length start - length close in
    start
    ++ ((if ltb available (length preview)
          then take (available - length cut_marker) preview ++ cut_marker
          else preview)
        ++ close)

abbrev pub has_claim : Option Text → Bool
has_claim none = false
has_claim (some _) = true

-- `_DIGEST.fullmatch`
unfoldable pub is_digest : Text → Bool
is_digest s =
    (length s == 64) && all (λ c. (leb b'0' c && leb c b'9') || (leb b'a' c && leb c b'f')) s

-- `_validated_request` at time `now`
unfoldable pub validated_request : Encoding → ℕ → ChatScope → Text → Request → Result Invalid Json
unfolding is_digest
validated_request e now scope requester r = do
  require (same_scope r.scope scope && text_eq r.requester_id requester) unverified
  require (r.expires_at == r.at + approval_ttl_seconds) unverified
  require (leb r.at now && ltb now r.expires_at) expired
  require (not (is_pending r && has_claim r.claim_id)) unverified
  call ← validated_call e r.server r.tool r.args
  require (is_digest r.digest && text_eq r.digest call.0) unverified
  ok r.args
