-- ===== src/Memory/Storage.antt =====
-- demo_agent/conversation_memory.py: the row of a scope, reading it, and the compare-and-swap of
-- `SQLiteStore`. A row's payload is the document that the gzip and JSON text stand for; the text's
-- sizes are functions of the document.
use ess_mcp.Prelude.{
  ℕ, ◌+◌, ◌^◌, ◌-◌, Bool, true, false, ◌&&◌, Option, none, some, ltb, leb, ◌==◌, if◌then◌else◌,
  Unicode, Result, ok, ◌>>=◌, ◌>>◌, require,
}
use ess_mcp.Memory.State.{
  StoreError, corrupt_state, state_too_large, ChatScope, State, Options, fresh_state,
  validate_state,
}

abbrev pub sqlite_max_version : ℕ
sqlite_max_version = 2 ^ 63 - 1

pub record Row (T : Type 0) : Type 0 where
  pub version : ℕ
  pub payload : State T

-- What is stored under one storage key.
abbrev pub Cell : Type 0 → Type 0
Cell T = Option (Row T)

-- What a store is made of: its options, the validation of the application's part of the document,
-- the empty `tasks`, and the sizes of the encodings.
pub record Config (T : Type 0) : Type 0 where
  pub unicode : Unicode
  pub options : Options
  pub tasks_valid : T → Result StoreError (Unit {0})
  pub no_tasks : T
  pub json_size : State T → ℕ
  pub gzip_size : State T → ℕ
  pub same : Discrete T

module _ {T : Type 0} (g : Config T) (scope : ChatScope) where
  abbrev valid : State T → Result StoreError (Unit {0})
  valid = validate_state g.unicode g.options g.tasks_valid scope

  unfoldable pub decode : State T → Result StoreError (State T)
  decode s = do
    require (leb (g.gzip_size s) g.options.max_compressed_bytes) state_too_large
    require (leb (g.json_size s) g.options.max_uncompressed_bytes) state_too_large
    validate_state g.unicode g.options g.tasks_valid scope s
    ok s

  unfoldable pub encode : State T → Result StoreError (State T)
  encode s = do
    validate_state g.unicode g.options g.tasks_valid scope s
    require (leb (g.json_size s) g.options.max_uncompressed_bytes) state_too_large
    require (leb (g.gzip_size s) g.options.max_compressed_bytes) state_too_large
    ok s

  -- `_read_sync`: the row's own checks, before its payload is decoded
  unfoldable pub read_record : Cell T → Result StoreError (Cell T)
  read_record none = ok none
  read_record (some r) = do
    require (leb 1 r.version && leb r.version sqlite_max_version) corrupt_state
    require (leb (g.gzip_size r.payload) g.options.max_compressed_bytes) state_too_large
    ok (some r)

  -- `_snapshot` at time `now`: a missing or expired document is a fresh one, and an expired row
  -- keeps its version for the write.
  unfoldable pub snapshot : ℕ → Cell T → Result StoreError (State T × Option ℕ)
  unfolding read_record decode fresh_state
  snapshot now c = do
    found ← read_record c
    elim found [
      | none ↦ ok (fresh_state g.no_tasks scope now, none)
      | some r ↦ do
        s ← decode r.payload
        ok (
          (if leb (s.updated_at + g.options.ttl_seconds) now
              then fresh_state g.no_tasks scope now
              else s),
          some r.version,
        )
    ]

  unfoldable pub read : ℕ → Cell T → Result StoreError (State T)
  unfolding snapshot
  read now c = do snap ← snapshot now c; ok snap.0

-- `_cas_sync`: whether the row was written, and what is stored then
unfoldable pub compare_and_swap :
    {T : Type 0} → Option ℕ → State T → Cell T → Result StoreError (Bool × Cell T)
compare_and_swap none s none = ok (true, some (record { version = 1; payload = s }))
compare_and_swap none s (some r) = ok (false, some r)
compare_and_swap (some v) s c = do
  require (leb 1 v && ltb v sqlite_max_version) corrupt_state
  elim c [
    | none ↦ ok (false, none)
    | some r ↦
        if r.version == v
        then ok (true, some (record { version = r.version + 1; payload = s }))
        else ok (false, some r)
  ]

-- `_delete_all_sync`, at one key
unfoldable pub delete_all : {T : Type 0} → Bool → Cell T → Cell T
delete_all keep c = if keep then c else none
