-- ===== src/Dispatch/Reply.antt =====
-- demo_agent/web.py, `_tool_result_text`: the text of what a tool has returned, or what it raises. A result
-- is a dictionary or an object of the client: its items or attributes are fields here.
use ess_mcp.Prelude.{
  Bool, true, false, ◌||◌, Option, none, some, List, any, if◌then◌else◌, Text, String, codes,
  drop_spaces, Result, ok, err,
}
use ess_mcp.Approvals.Json.{Json, bool, object, Fields}
use ess_mcp.Skills.Paths.{join}
use ess_mcp.Skills.Grants.{field_at, after_prefix}
use ess_mcp.Gateway.Events.{truthy}
use ess_mcp.Dispatch.Admission.{World}

-- `flags` are isError and is_error, as far as they are not None; `texts` are the parts of the content
-- that are texts, if there is content; `whole` is the result as a text, or its json.dumps.
pub record Reply : Type 0 where
  pub flags : List Json
  pub structured : Option Json
  pub texts : Option (List Text)
  pub whole : Text

-- `type(flag) is not bool or flag`
unfoldable pub is_raised : Json → Bool
is_raised (bool b) = b
is_raised _ = true

abbrev pub is_false : Option Json → Bool
is_false (some (bool false)) = true
is_false _ = false

abbrev at : String → Fields → Option Json
at name fs = field_at (codes name) fs

-- the test of the structured content
unfoldable pub failed_content : Option Json → Bool
failed_content (some (object fs)) = truthy (at "error" fs) || is_false (at "success" fs)
failed_content _ = false

-- the test of the text, read as JSON
unfoldable pub failed_text : Option Json → Bool
failed_text (some (object fs)) =
    truthy (at "error" fs)
    || truthy (at "isError" fs)
    || truthy (at "is_error" fs)
    || is_false (at "success" fs)
failed_text _ = false

-- the text begins with "error:", in any case
unfoldable pub says_error : World → Text → Bool
says_error w text =
    elim (after_prefix (codes "error:") (w.lower (drop_spaces w.python.unicode text))) [
      | none ↦ false
      | some rest ↦ true
    ]

abbrev pub text_in : Reply → Text
text_in r = elim r.texts [ none ↦ r.whole | some ts ↦ join 10 ts ]

-- `_tool_result_text`, with the text of what it raises
unfoldable pub tool_result_text : World → Reply → Result Text Text
unfolding is_raised failed_content failed_text says_error
tool_result_text w r =
    if any is_raised r.flags
    then err (codes "The tool reported an unsuccessful outcome.")
    else if failed_content r.structured
    then err (codes "The tool reported an unsuccessful structured result.")
    else if says_error w (text_in r) || failed_text (w.python.loads (text_in r))
    then err (codes "The tool returned an error, not a successful result.")
    else ok (text_in r)
