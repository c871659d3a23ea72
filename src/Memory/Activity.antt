-- ===== src/Memory/Activity.antt =====
-- demo_agent/conversation_memory.py: receipts for activities, the welcome flag, and the window of
-- recent messages. `scrub` is `scrub_memory_text`.
pub mod Receipts
pub mod Exchanges
use ess_mcp.Prelude.{
  ℕ, Bool, true, false, not, ◌&&◌, Option, none, some, List, [], ◌∷◌, ◌++◌, if◌then◌else◌, any,
  last, Text, text_eq, member, Result, ok, err, ◌>>=◌, ◌>>◌, require,
}
use ess_mcp.Memory.State.{
  StoreError, value_error, ChatScope, Message, Role, State, identifier_is_valid, max_seen_ids,
  max_recent_messages,
}
use ess_mcp.Memory.Storage.{Cell, Config}
use ess_mcp.Memory.Update.{Moment, Transform, update}

unfoldable pub user_message : Text → Text → Text → ℕ → Message
user_message activity sender content now = record {
  role = Role.user;
  content = content;
  sender_id = sender;
  activity_id = activity;
  at = now;
}

unfoldable pub assistant_message : Text → Text → Text → ℕ → Message
assistant_message activity sender content now = record {
  role = Role.assistant;
  content = content;
  sender_id = sender;
  activity_id = activity;
  at = now;
}

module _ {T : Type 0} where
  unfoldable pub remember_activity : Text → State T → State T
  remember_activity activity s =
      if member activity s.seen
      then s
      else record s { seen = last max_seen_ids (s.seen ++ activity ∷ []) }

  -- the `transform` of `claim_activity`, with `claimed`
  unfoldable pub claim_transform : Text → Transform Bool T
  claim_transform activity s =
      let claimed = not (member activity s.seen) in
      ok (claimed, if claimed then remember_activity activity s else s)

  -- the `transform` of `mark_welcomed`, with `changed`
  unfoldable pub welcome_transform : Transform Bool T
  welcome_transform s =
      let changed = not s.welcomed in
      ok (changed, if changed then record s { welcomed = true } else s)

  -- What the transform of `append_exchange` does to a document without the activity.
  unfoldable pub add_exchange :
      ChatScope → ℕ → Text → Text → Text → Text → Option Text → State T → State T
  add_exchange scope now activity sender said answer summary s =
      let t = remember_activity activity (record s {
        recent = last max_recent_messages (
            s.recent
            ++ user_message activity sender said now
              ∷ assistant_message activity scope.agent_id answer now
              ∷ []);
      }) in
      elim summary [ none ↦ t | some text ↦ record t { summary = text } ]

  -- the `transform` of `append_exchange`, on redacted texts
  unfoldable pub append_transform :
      ChatScope → ℕ → Text → Text → Text → Text → Option Text → Transform (Unit {0}) T
  append_transform scope now activity sender said answer summary s = ok (
    tt,
    if any (λ m. text_eq m.activity_id activity) s.recent
        then s
        else add_exchange scope now activity sender said answer summary s,
  )

abbrev result_of :
    {A T : Type 0} → Result StoreError (A × State T) × Cell T → Result StoreError A × Cell T
result_of (ok (a, s), c) = (ok a, c)
result_of (err e, c) = (err e, c)

abbrev state_of :
    {A T : Type 0} → Result StoreError (A × State T) × Cell T → Result StoreError (State T) × Cell T
state_of (ok (a, s), c) = (ok s, c)
state_of (err e, c) = (err e, c)

module _ {T : Type 0} (g : Config T) (scope : ChatScope) (moments : ℕ → Moment T) where
  unfoldable pub claim_activity : Text → Cell T → Result StoreError Bool × Cell T
  claim_activity activity c =
      if identifier_is_valid g.unicode activity
      then result_of (update g scope moments (claim_transform activity) c)
      else (err value_error, c)

  unfoldable pub mark_welcomed : Cell T → Result StoreError Bool × Cell T
  mark_welcomed c = result_of (update g scope moments welcome_transform c)

  unfoldable pub append_exchange :
      (Text → Text)
      → ℕ
      → Text
      → Text
      → Text
      → Text
      → Option Text
      → Cell T
      → Result StoreError (State T) × Cell T
  append_exchange scrub now activity sender said answer summary c =
      if identifier_is_valid g.unicode activity && identifier_is_valid g.unicode sender
      then state_of (
          update g scope moments
            (append_transform scope now activity sender (scrub said) (scrub answer)
              (elim summary [ none ↦ none | some text ↦ some (scrub text) ]))
            c)
      else (err value_error, c)
