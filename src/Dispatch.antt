-- ===== src/Dispatch.antt =====
-- skills/issue-orchestration/scripts/dispatch-batch-selector.mjs: ranking of the ready stage tasks,
-- the conflicts between them and with active leases, the selection of a batch, and the leases.
pub mod Task
pub mod Rank
pub mod Lease
pub mod WorktreeKey
pub mod Conflict
pub mod Select
mod Examples
