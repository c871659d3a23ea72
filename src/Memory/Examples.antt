-- ===== src/Memory/Examples.antt =====
-- A store of one number, a writer that gets in between, and the theorems of Memory at these.
use native.Mathlib.Decide.{ℕ_discrete}
use mathlib.Core.Bool.{decide}
use ess_mcp.Prelude.{
  ℕ, ◌+◌, ◌*◌, ◌≡◌, refl, true, false, none, some, [], ◌∷◌, arith, length, codes, ascii, text_eq,
  member, last, ok, err,
}
use ess_mcp.Memory.State.{
  key_error, ChatScope, State, State-discrete, Options, fresh_state, validate_state, distinct,
}
use ess_mcp.Memory.Storage.{Cell, Config, decode, encode, snapshot, compare_and_swap}
use ess_mcp.Memory.Update.{
  Moment, Transform, swap, write, transform_and_write, attempt_on, update_loop, update,
}
use ess_mcp.Memory.Update.Outcomes.{Keep, IsReadable}
use ess_mcp.Memory.Activity.{remember_activity, append_transform, add_exchange}
use ess_mcp.Memory.Activity.Receipts.{AreReceipts}
use ess_mcp.Memory.Activity.Exchanges.{EndsWith, append_transform_once}

abbrev options : Options
options = record {
  ttl_seconds = 90 * 24 * 60 * 60;
  max_compressed_bytes = 256 * 1024;
  max_uncompressed_bytes = 1024 * 1024;
  max_attempts = 2;
}

abbrev config : Config ℕ
config = record {
  unicode = ascii;
  options = options;
  tasks_valid = λ n. ok tt;
  no_tasks = 0;
  json_size = λ s. 200 + length s.seen;
  gzip_size = λ s. 100 + length s.seen;
  same = ℕ_discrete;
}

abbrev scope : ChatScope
scope = record {
  tenant_id = codes "tenant";
  agent_id = codes "agent";
  conversation_id = codes "chat";
}

abbrev document : ℕ → ℕ → State ℕ
document n at = record {
  version = 1;
  scope = scope;
  summary = [];
  recent = [];
  seen = [];
  tasks = n;
  welcomed = false;
  active = false;
  updated_at = at;
}

abbrev row : ℕ → State ℕ → Cell ℕ
row version s = some (record { version = version; payload = s })

-- The other writer stores a first document between the first attempt's read and its write.
abbrev other_writer : Cell ℕ → Cell ℕ
other_writer none = row 1 (document 7 5)
other_writer (some r) = some r

abbrev moments : ℕ → Moment ℕ
moments n = record {
  before = λ c. c;
  read_at = 10;
  write_at = 11;
  between = other_writer;
  open_at_read = true;
  open_at_write = true;
}

abbrev increment : Transform (Unit {0}) ℕ
increment s = ok (tt, record s { tasks = s.tasks + 1 })

program : Unit {0}
unfolding update update_loop attempt_on transform_and_write write swap snapshot decode encode
    validate_state compare_and_swap fresh_state decide State-discrete ℕ_discrete text_eq
program = tt

readable : IsReadable config scope (row 1 (document 7 5))
unfolding program
readable = (refl, omega arith)

moments-Keep : Keep (IsReadable config scope) moments
moments-Keep = record { before = λ n c h. h; between = λ n c h. keeps c h }
  where
    keeps : (c : Cell ℕ) → IsReadable config scope c → IsReadable config scope (other_writer c)
    keeps none h = readable
    keeps (some r) h = h

-- The transform of a caller that finds no case.
abbrev missing : Transform (Unit {0}) ℕ
missing s = err key_error

raises :
    update config scope moments missing (row 1 (document 7 5))
    ≡ (err key_error, row 1 (document 7 5))
unfolding program
raises = refl

moments-Keep-row : Keep (λ c. c ≡ row 1 (document 7 5)) moments
moments-Keep-row = record { before = λ n c h. h; between = λ n c h. rw h }

abbrev claimed : State ℕ
claimed = record (document 0 0) { seen = codes "a1" ∷ [] }

receipts : AreReceipts ascii []
unfolding distinct
receipts = record { valid = refl; few = omega arith; once = refl }

abbrev appended : State ℕ
unfolding add_exchange remember_activity member last
appended =
    add_exchange scope 3 (codes "a1") (codes "user") (codes "hello") (codes "hi") none
      (document 0 0)

appends :
    append_transform scope 3
      (codes "a1")
      (codes "user")
      (codes "hello")
      (codes "hi")
      none
      (document 0 0)
    ≡ ok (tt, appended)
unfolding append_transform appended add_exchange
appends = refl

append_transform_once_example :
    EndsWith scope 3 (codes "a1") (codes "user") (codes "hello") (codes "hi") appended.recent
    × (append_transform scope 9
          (codes "a1")
          (codes "user")
          (codes "hello")
          (codes "hi")
          none
          appended
        ≡ ok (tt, appended))
append_transform_once_example =
    append_transform_once scope 3 9 (codes "a1") (codes "user") (codes "hello") (codes "hi") none
      (document 0 0) appended refl appends
