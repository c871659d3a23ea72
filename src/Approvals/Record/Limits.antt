-- ===== src/Approvals/Record/Limits.antt =====
-- The length of what a person is told.
use ess_mcp.Prelude.{
  ℕ, ◌+◌, ◌-◌, ◌≤◌, ◌≡◌, true, ◌||◌, ◌++◌, arith, ltb, if◌then◌else◌, length, take, length-append,
  length-take, Text, codes, text_eq, text_eq_iff, member, Bool-cases, inl, inr,
}
use ess_mcp.Approvals.Json.{Json}
use ess_mcp.Approvals.Call.{servers, is_tool_name}
use ess_mcp.Approvals.Record.{
  Status, pending, executing, completed, rejected, unknown, Request, max_message_chars, shortened,
  or_no_text, unknown_text, completed_text, safe_result, status_message, expired_text, invalid_text,
  rejected_text, escaped, cut_marker, approval_prefix, approval_suffix, approval_message,
}

-- A text that is cut where it does not fit, with a marker at the end.
length-cut-le :
    (limit : ℕ) (message marker : Text)
    → length marker ≤ limit
    → length (
        if ltb limit (length message)
        then take (limit - length marker) message ++ marker
        else message)
      ≤ limit
length-cut-le limit message marker h = ground (
  arith,
  length-append (take (limit - length marker) message) marker,
  length-take (limit - length marker) message,
)

length-completed_text-le : (id safe : Text) → length (completed_text id safe) ≤ max_message_chars
unfolding completed_text
length-completed_text-le id safe =
    length-cut-le max_message_chars
      (codes "Request " ++ (id ++ (codes " completed.\n" ++ or_no_text safe))) shortened
      (omega arith)

abbrev unknown_end : Text
unknown_end =
    codes
      " has an unknown outcome and may already have taken effect. It will not be replayed. Check the source system before requesting another action."

length-unknown_text : (id : Text) → length (unknown_text id) ≡ length id + 149
unfolding unknown_text
length-unknown_text id = omega (arith, length-append id unknown_end)

length-rejected-le :
    (t : Text)
    → length (
        if text_eq t expired_text || text_eq t invalid_text || text_eq t rejected_text
        then t
        else rejected_text)
      ≤ max_message_chars
unfolding expired_text invalid_text rejected_text
length-rejected-le t = elim (Bool-cases (text_eq t expired_text)) [
  | inl e ↦ rw (e, (text_eq_iff t expired_text).0 e) (omega arith)
  | inr e ↦ elim (Bool-cases (text_eq t invalid_text)) [
    | inl f ↦ rw (e, f, (text_eq_iff t invalid_text).0 f) (omega arith)
    | inr f ↦ elim (Bool-cases (text_eq t rejected_text)) [
      | inl k ↦ rw (e, f, k, (text_eq_iff t rejected_text).0 k) (omega arith)
      | inr k ↦ rw (e, f, k) (omega arith)
    ]
  ]
]

length-invalid_text-le : length invalid_text ≤ max_message_chars
unfolding invalid_text
length-invalid_text-le = omega arith

-- what is said of a status
told :
    (scrub : Text → Text) (id : Text) (r : Request) (s : Status)
    → length id ≡ 12
    → length (status_message scrub id (record r { status = s })) ≤ max_message_chars
unfolding status_message
told scrub id r executing n = omega (
  arith,
  n,
  length-append id (codes " is executing or may still be running. It will not be replayed."),
)
told scrub id r unknown n = omega (arith, n, length-unknown_text id)
told scrub id r rejected n = length-rejected-le r.result
told scrub id r completed n = length-completed_text-le id (safe_result scrub r.result)
told scrub id r pending n = length-invalid_text-le

-- Whatever a request has come to, what a person is told of it is at most 1800 characters.
pub length-status_message-le :
    (scrub : Text → Text) (id : Text) (r : Request)
    → length id ≡ 12
    → length (status_message scrub id r) ≤ max_message_chars
unfolding status_message
length-status_message-le scrub id r n = told scrub id r r.status n

length-approval_prefix-le :
    (server tool id : Text)
    → length server ≤ 10
    → length tool ≤ 64
    → length id ≡ 12
    → length (approval_prefix server tool id) ≤ 150
unfolding approval_prefix
length-approval_prefix-le server tool id k m n =
    let last = id ++ codes ").\nArguments (data): " in
    omega (
      arith,
      k,
      m,
      n,
      length-append id (codes ").\nArguments (data): "),
      length-append tool (codes " (request " ++ last),
      length-append server (codes "." ++ (tool ++ (codes " (request " ++ last))),
    )

length-approval_suffix-le : (id : Text) → length id ≡ 12 → length (approval_suffix id) ≤ 250
unfolding approval_suffix
length-approval_suffix-le id n =
    let last = codes "'). Only you can answer, and it expires in 15 minutes." in
    omega
      (arith, n, length-append id last, length-append id (codes "' or 'reject " ++ (id ++ last)))

length-server-le : (server : Text) → member server servers ≡ true → length server ≤ 10
unfolding member
length-server-le server h = ground (
  arith,
  h,
  text_eq_iff server (codes "workday"),
  text_eq_iff server (codes "servicenow"),
  text_eq_iff server (codes "coupa"),
  text_eq_iff server (codes "salesforce"),
)

length-tool-le : (tool : Text) → is_tool_name tool ≡ true → length tool ≤ 64
unfolding is_tool_name
length-tool-le tool h = ground (arith, h)

-- The question to a person is at most 1800 characters, whatever the arguments, and ends with the way to
-- answer it; the request has one of the configured servers and a tool name.
pub length-approval_message-le :
    (printed : Json → Text) (id : Text) (r : Request)
    → length id ≡ 12
    → member r.server servers ≡ true
    → is_tool_name r.tool ≡ true
    → length (approval_message printed id r) ≤ max_message_chars
unfolding approval_message
length-approval_message-le printed id r n k m =
    let start = approval_prefix r.server r.tool id in
    let close = approval_suffix id in
    let available = max_message_chars - length start - length close in
    let preview = escaped (printed r.args) in
    let middle =
      if ltb available (length preview)
      then take (available - length cut_marker) preview ++ cut_marker
      else preview in
    let before =
      length-approval_prefix-le r.server r.tool id (length-server-le r.server k)
        (length-tool-le r.tool m) n in
    let behind = length-approval_suffix-le id n in
    omega (
      arith,
      before,
      behind,
      length-append start (middle ++ close),
      length-append middle close,
      length-cut-le available preview cut_marker (omega (arith, before, behind)),
    )
