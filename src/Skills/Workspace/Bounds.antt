-- ===== src/Skills/Workspace/Bounds.antt =====
-- demo_agent/skill_runtime.py: the limits of a workspace hold over any writes.
use ess_mcp.Prelude.{
  ℕ, ◌+◌, ◌-◌, ◌≤◌, ◌≡◌, false, ◌&&◌, Option, [], ◌∷◌, arith, leb, if◌then◌else◌, length, Text,
  Unicode, text_eq, Dict, lookup, insert, lookup-insert, IsDict, insert-IsDict, ok, Result-cases,
  inl, inr,
}
use ess_mcp.Skills.Paths.{normalize}
use ess_mcp.Skills.Workspace.{
  max_files, max_file_bytes, max_total_bytes, FileRecord, Workspace, previous_bytes, is_new, Entry,
  write, store, file_record, read_bytes,
}

-- the bytes of all files
abbrev pub bytes_of : Dict FileRecord → ℕ
bytes_of [] = 0
bytes_of ((path, r) ∷ files) = length r.content + bytes_of files

abbrev pub AllSmall : Dict FileRecord → Type 0
AllSmall [] = Unit {0}
AllSmall ((path, r) ∷ files) = (length r.content ≤ max_file_bytes) × AllSmall files

-- The counter is the sum of the sizes of the files, and all limits hold.
pub record IsBounded (w : Workspace) : Type 0 where
  pub counted : w.total ≡ bytes_of w.files
  pub total_bytes : w.total ≤ max_total_bytes
  pub few : length w.files ≤ max_files
  pub small : AllSmall w.files
  pub distinct : IsDict w.files

bytes_of-insert :
    (k : Text) (r : FileRecord) (d : Dict FileRecord)
    → bytes_of (insert k r d) + previous_bytes (lookup k d) ≡ bytes_of d + length r.content
unfolding insert lookup
bytes_of-insert k r [] = omega arith
bytes_of-insert k r ((j, s) ∷ d) = ground (arith, bytes_of-insert k r d)

length-insert :
    (k : Text) (r : FileRecord) (d : Dict FileRecord)
    → length (insert k r d) ≡ length d + (if is_new (lookup k d) then 1 else 0)
unfolding insert lookup
length-insert k r [] = omega arith
length-insert k r ((j, s) ∷ d) = ground (arith, length-insert k r d)

insert-AllSmall :
    (k : Text) (r : FileRecord) (d : Dict FileRecord)
    → length r.content ≤ max_file_bytes
    → AllSmall d
    → AllSmall (insert k r d)
unfolding insert
insert-AllSmall k r [] h a = (h, tt)
insert-AllSmall k r ((j, s) ∷ d) h a = ground (arith, h, a, insert-AllSmall k r d h a.1)

previous_bytes-le : (k : Text) (d : Dict FileRecord) → previous_bytes (lookup k d) ≤ bytes_of d
unfolding lookup
previous_bytes-le k [] = omega arith
previous_bytes-le k ((j, s) ∷ d) = ground (arith, previous_bytes-le k d)

-- What a write under a path that succeeds has checked, and what it leaves.
pub record Stored (path content source : Text) (now : ℕ) (w v : Workspace) : Type 0 where
  pub small : length content ≤ max_file_bytes
  pub room : (is_new (lookup path w.files) && leb max_files (length w.files)) ≡ false
  pub counted : v.total ≡ w.total - previous_bytes (lookup path w.files) + length content
  pub total_bytes : v.total ≤ max_total_bytes
  pub files : v.files ≡ insert path (file_record content source now) w.files

store-Stored :
    (path content source : Text) (now : ℕ) (w v : Workspace) (e : Entry)
    → store path content source now w ≡ ok (e, v)
    → Stored path content source now w v
unfolding store
store-Stored path content source now w v e h = ground (arith, h)

Stored-IsBounded :
    (path content source : Text) (now : ℕ) (w v : Workspace)
    → IsBounded w
    → Stored path content source now w v
    → IsBounded v
Stored-IsBounded path content source now w v b s =
    let file = file_record content source now in
    record {
      counted =
          rw s.files
            (omega (arith, bytes_of-insert path file w.files, previous_bytes-le path w.files));
      total_bytes = s.total_bytes;
      few = rw s.files (ground (arith, length-insert path file w.files));
      small = rw s.files (insert-AllSmall path file w.files s.small b.small);
      distinct = rw s.files (insert-IsDict path file w.files b.distinct);
    }

write-IsBounded :
    (u : Unicode) (given : Option Text) (content source : Text) (now : ℕ) (w v : Workspace)
    (e : Entry)
    → IsBounded w
    → write u given content source now w ≡ ok (e, v)
    → IsBounded v
unfolding write
write-IsBounded u given content source now w v e b h = elim (Result-cases (normalize u given)) [
  | inl (path, normal) ↦
      Stored-IsBounded path content source now w v b
        (store-Stored path content source now w v e (ground (arith, h, normal)))
  | inr (raised, refused) ↦ ground (arith, h, refused)
]

read_bytes-write :
    (u : Unicode) (given other : Option Text) (p q content source : Text) (now : ℕ)
    (w v : Workspace) (e : Entry)
    → normalize u given ≡ ok p
    → normalize u other ≡ ok q
    → write u given content source now w ≡ ok (e, v)
    → read_bytes u other v ≡ (if text_eq p q then ok content else read_bytes u other w)
unfolding write read_bytes
read_bytes-write u given other p q content source now w v e given_p other_q h =
    let stored = store-Stored p content source now w v e (ground (arith, h, given_p)) in
    let file = file_record content source now in
    rw (other_q, stored.files, lookup-insert p q file w.files) (ground arith)

-- A write that succeeds keeps the limits of the workspace, at most 128 files, each of at most 2,000,000
-- bytes, and 24,000,000 bytes in all, and a counter that agrees with the files. What was written is
-- read back under any spelling of its path, and every other file reads as before.
pub write_reads_back :
    (u : Unicode) (given other : Option Text) (p q content source : Text) (now : ℕ)
    (w v : Workspace) (e : Entry)
    → IsBounded w
    → normalize u given ≡ ok p
    → normalize u other ≡ ok q
    → write u given content source now w ≡ ok (e, v)
    → IsBounded v
      × (read_bytes u other v ≡ (if text_eq p q then ok content else read_bytes u other w))
write_reads_back u given other p q content source now w v e b given_p other_q h = (
  write-IsBounded u given content source now w v e b h,
  read_bytes-write u given other p q content source now w v e given_p other_q h,
)
