-- ===== src/Memory/Update.antt =====
-- demo_agent/conversation_memory.py, `Store.update`: the optimistic update with at most
-- `max_attempts` compare-and-swap attempts, against whatever other writers do in between.
pub mod Honest
pub mod Atomic
pub mod Outcomes
use mathlib.Core.Bool.{decide}
use native.Mathlib.Decide.{ℕ_discrete}
use ess_mcp.Prelude.{
  ℕ, zero, suc, Bool, true, false, Option, none, some, if◌then◌else◌, Result, ok, err, ◌>>=◌,
  require,
}
use ess_mcp.Memory.State.{
  StoreError, concurrent_update, closed, ChatScope, State, State-discrete, validate_state,
}
use ess_mcp.Memory.Storage.{Cell, Config, snapshot, encode, compare_and_swap}

-- A transform changes the document in place, and may raise; what it leaves in the variables of its
-- caller (`nonlocal claimed`) is `A`.
abbrev pub Transform : Type 0 → Type 0 → Type 0
Transform A T = State T → Result StoreError (A × State T)

-- What surrounds one attempt: the other writers before its read and between its read and its
-- write, the clock at both, and whether the store is still open.
pub record Moment (T : Type 0) : Type 0 where
  pub before : Cell T → Cell T
  pub read_at : ℕ
  pub write_at : ℕ
  pub between : Cell T → Cell T
  pub open_at_read : Bool
  pub open_at_write : Bool

pub data Attempt (A T : Type 0) : Type 0 where
  finished : Result StoreError (A × State T) → Cell T → Attempt A T
  conflict : Cell T → Attempt A T

module _ {A T : Type 0} (g : Config T) (scope : ChatScope) (m : Moment T) where
  -- the compare-and-swap, on what is stored at that moment
  unfoldable pub swap : A → Option ℕ → State T → Cell T → Attempt A T
  swap a version s c = elim (compare_and_swap version s c) [
    | err e ↦ finished (err e) c
    | ok (written, c') ↦ if written then finished (ok (a, s)) c' else conflict c'
  ]

  -- a changed document is stamped, encoded and written
  unfoldable pub write : A → Option ℕ → State T → Cell T → Attempt A T
  write a version candidate c =
      let stamped = record candidate { updated_at = m.write_at } in
      elim (encode g scope stamped) [
        | err e ↦ finished (err e) (m.between c)
        | ok s ↦
            if m.open_at_write
            then swap a version s (m.between c)
            else finished (err closed) (m.between c)
      ]

  -- one round of the loop, from the snapshot on
  unfoldable pub transform_and_write : Transform A T → State T → Option ℕ → Cell T → Attempt A T
  transform_and_write f original version c = elim (f original) [
    | err e ↦ finished (err e) c
    | ok (a, candidate) ↦ elim (validate_state g.unicode g.options g.tasks_valid scope candidate) [
      | err e ↦ finished (err e) c
      | ok _ ↦
          if decide (State-discrete g.same candidate original)
          then finished (ok (a, original)) c
          else write a version candidate c
    ]
  ]

  unfoldable pub attempt_on : Transform A T → Cell T → Attempt A T
  attempt_on f c =
      if m.open_at_read
      then (elim (snapshot g scope m.read_at c) [
        | err e ↦ finished (err e) c
        | ok (original, version) ↦ transform_and_write f original version c
      ])
      else finished (err closed) c

module _ {A T : Type 0} (g : Config T) (scope : ChatScope) (moments : ℕ → Moment T) where
  -- `moments n` surrounds the attempt after which `n` are left
  unfoldable pub update_loop : ℕ → Transform A T → Cell T → Result StoreError (A × State T) × Cell T
  update_loop zero f c = (err concurrent_update, c)
  update_loop (suc left) f c =
      elim (attempt_on g scope (moments left) f ((moments left).before c)) [
        | finished r c' ↦ (r, c')
        | conflict c' ↦ update_loop left f c'
      ]

  unfoldable pub update : Transform A T → Cell T → Result StoreError (A × State T) × Cell T
  update = update_loop g.options.max_attempts
