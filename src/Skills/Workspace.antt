-- ===== src/Skills/Workspace.antt =====
-- demo_agent/skill_runtime.py, `Workspace`: the bounded working folder of one run. Contents are bytes; the
-- encoding of a text, the decoding of bytes and the digest of a call are arguments, as is the time.
pub mod Bounds
pub mod Reading
use ess_mcp.Prelude.{
  ℕ, ◌+◌, ◌-◌, Bool, true, false, not, ◌&&◌, ◌||◌, Option, none, some, List, [], ◌∷◌, ◌++◌, leb,
  ltb, if◌then◌else◌, length, take, drop, Text, Unicode, codes, text_eq, Dict, lookup, insert,
  Result, ok, err, ◌>>=◌, ◌>>◌, require,
}
use ess_mcp.Skills.Paths.{
  Refusal, path_required, not_relative, bad_segment, too_large, too_many_files, workspace_full,
  not_found, normalize,
}

abbrev pub max_files : ℕ
max_files = 128

abbrev pub max_file_bytes : ℕ
max_file_bytes = 2_000_000

abbrev pub max_total_bytes : ℕ
max_total_bytes = 24_000_000

pub record FileRecord : Type 0 where
  pub content : Text
  pub source : Text
  pub at : ℕ

-- `_files` and `total`
pub record Workspace : Type 0 where
  pub files : Dict FileRecord
  pub total : ℕ

abbrev pub new_workspace : Workspace
new_workspace = record { files = []; total = 0 }

abbrev pub previous_bytes : Option FileRecord → ℕ
previous_bytes none = 0
previous_bytes (some r) = length r.content

abbrev pub is_new : Option FileRecord → Bool
is_new none = true
is_new (some r) = false

-- `entry`
pub record Entry : Type 0 where
  pub path : Text
  pub bytes : ℕ
  pub source : Text
  pub updated_at : ℕ

unfoldable pub entry : Text → FileRecord → Entry
entry path r = record {
  path = path;
  bytes = length r.content;
  source = r.source;
  updated_at = r.at;
}

abbrev pub file_record : Text → Text → ℕ → FileRecord
file_record content source now = record { content = content; source = take 80 source; at = now }

-- `write`, behind its first line. The file that is replaced was counted in the total, which
-- Workspace.Bounds.IsBounded says, so the subtraction does not stop at 0.
unfoldable pub store : Text → Text → Text → ℕ → Workspace → Result Refusal (Entry × Workspace)
store path content source now w = do
  require (leb (length content) max_file_bytes) too_large
  let previous = lookup path w.files
  require (not (is_new previous && leb max_files (length w.files))) too_many_files
  let total = w.total - previous_bytes previous + length content
  require (leb total max_total_bytes) workspace_full
  let file = file_record content source now
  ok (entry path file, record { files = insert path file w.files; total = total })

-- `write`, of the bytes of the content
unfoldable pub write :
    Unicode → Option Text → Text → Text → ℕ → Workspace → Result Refusal (Entry × Workspace)
write u given content source now w = do path ← normalize u given; store path content source now w

-- `exists`
unfoldable pub exists : Unicode → Option Text → Workspace → Bool
exists u given w = elim (normalize u given) [
  | ok path ↦ not (is_new (lookup path w.files))
  | err e ↦ false
]

abbrev pub content_or_raise : Option FileRecord → Result Refusal Text
content_or_raise none = err not_found
content_or_raise (some r) = ok r.content

-- `read_bytes`
unfoldable pub read_bytes : Unicode → Option Text → Workspace → Result Refusal Text
read_bytes u given w = do path ← normalize u given; content_or_raise (lookup path w.files)

-- `sorted` of the paths, by their code points
text_le : Text → Text → Bool
text_le [] t = true
text_le (c ∷ s) [] = false
text_le (c ∷ s) (d ∷ t) = ltb c d || (leb c d && text_le s t)

place : Entry → List Entry → List Entry
place e [] = e ∷ []
place e (f ∷ fs) = let rest = place e fs in if text_le e.path f.path then e ∷ f ∷ fs else f ∷ rest

-- `listing`
unfoldable pub listing_of : Dict FileRecord → List Entry
unfolding text_le place entry
listing_of [] = []
listing_of ((path, r) ∷ files) = place (entry path r) (listing_of files)

-- `snapshot`
unfoldable pub snapshot_of : Dict FileRecord → Dict Text
snapshot_of [] = []
snapshot_of ((path, r) ∷ files) = (path, r.content) ∷ snapshot_of files

abbrev digest_suffix : Option Text → Text
digest_suffix none = []
digest_suffix (some d) = codes "-" ++ take 8 d

-- `save_tool_result`: the digest of the arguments, if any is left, and whether the text is JSON, are
-- arguments
unfoldable pub save_tool_result :
    Unicode
    → (Text → Text)
    → Text
    → Text
    → Option Text
    → Bool
    → Text
    → ℕ
    → Workspace
    → Result Refusal (Text × Workspace)
save_tool_result u encode server tool digest is_json text now w = do
  let suffix = digest_suffix digest
  let extension = if is_json then codes ".json" else codes ".txt"
  let path = codes "data/" ++ (server ++ (codes "/" ++ (tool ++ (suffix ++ extension))))
  (_, saved) ← write u (some path) (encode text) (server ++ (codes "." ++ tool)) now w
  ok (path, saved)

-- `_window`: an offset that is no index is 0, and a limit out of range is 12000
pub record Window : Type 0 where
  pub path : Text
  pub offset : ℕ
  pub returned : ℕ
  pub total : ℕ
  pub more : Bool
  pub content : Text

unfoldable pub offset_of : Option ℕ → ℕ
offset_of none = 0
offset_of (some n) = n

unfoldable pub limit_of : Option ℕ → ℕ
limit_of none = 12_000
limit_of (some n) = if leb 1 n && leb n 40_000 then n else 12_000

unfoldable pub window : Text → Text → Option ℕ → Option ℕ → Window
unfolding offset_of limit_of
window path text given limit =
    let offset = offset_of given in
    let chunk = take (limit_of limit) (drop offset text) in
    record {
      path = path;
      offset = offset;
      returned = length chunk;
      total = length text;
      more = ltb (offset + length chunk) (length text);
      content = chunk;
    }

-- `read_text`
unfoldable pub read_text :
    Unicode → (Text → Text) → Option Text → Option ℕ → Option ℕ → Workspace → Result Refusal Window
read_text u decode given offset limit w = do
  path ← normalize u given
  content ← read_bytes u (some path) w
  ok (window path (decode content) offset limit)
