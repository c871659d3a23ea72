-- ===== src/Memory/Saving.antt =====
-- One `await store.update(scope, transform)` as its caller sees it, where other calls come between
-- the caller's awaits and not inside the update (Memory/Update: an update that returns has happened
-- at one moment).
use ess_mcp.Prelude.{Option, none, some}

-- The update returns; it raises and nothing is written, before or after the transform ran; or it
-- raises after the document was written.
pub data Saving : Type 0 where
  saved unread refused lost : Saving

-- What returns, if it returns, and what is stored.
unfoldable pub store_update : {A S : Type 0} → Saving → (S → A × S) → S → Option (A × S) × S
store_update saved f c = (some (f c), (f c).1)
store_update unread f c = (none, c)
store_update refused f c = (none, c)
store_update lost f c = (none, (f c).1)

-- What the transform has left in the caller's variables, which held `a`.
unfoldable pub left_by : {A S : Type 0} → Saving → A → (S → A × S) → S → A
left_by unread a f c = a
left_by saved a f c = (f c).0
left_by refused a f c = (f c).0
left_by lost a f c = (f c).0
