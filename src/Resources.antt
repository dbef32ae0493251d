-- ===== src/Resources.antt =====
-- skills/issue-orchestration/scripts/resource-lifecycle.mjs: the registry of a stage attempt's
-- resources, the events that change it, and the receipt that ends its life.
pub mod Registry
pub mod Receipt
pub mod Event
pub mod Valid
pub mod Reusable
pub mod Leases
pub mod History
pub mod Slot
mod Examples
