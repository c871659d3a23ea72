-- ===== src/Approvals/Tasks/Bounds.antt =====
-- The bounds of the stored requests.
use ess_mcp.Prelude.{◌≤◌, length}
use ess_mcp.Approvals.Json.{Json}
use ess_mcp.Approvals.Record.{max_records, max_pending}
use ess_mcp.Approvals.Tasks.{Tasks, count_pending}

-- At most 50 requests, and at most 20 of them pending.
pub record IsBounded (ts : Tasks) : Type 0 where
  pub records : length ts ≤ max_records
  pub waiting : count_pending ts ≤ max_pending
