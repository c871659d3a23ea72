-- ===== src/Skills/Workspace/Reading.antt =====
-- demo_agent/skill_runtime.py, `_window`: a reader who goes on where the last window ended.
use ess_mcp.Prelude.{ℕ, zero, suc, ◌+◌, Option, some, List, [], ◌++◌, if◌then◌else◌, Text}
use ess_mcp.Skills.Workspace.{window}

-- The contents of all windows that are read with one limit from an offset on, while there is more.
pub pages : ℕ → Text → Text → Option ℕ → ℕ → Text
pages zero path text limit offset = []
pages (suc f) path text limit offset =
    let w = window path text (some offset) limit in
    let rest = pages f path text limit (offset + w.returned) in
    w.content ++ (if w.more then rest else [])
