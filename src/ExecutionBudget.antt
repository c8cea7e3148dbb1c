-- ===== src/ExecutionBudget.antt =====
-- src/core/execution-budget.ts: deadlines, abort and the wait before a retry.
mod Defs
pub mod Backoff
unfoldable pub use Defs.*
