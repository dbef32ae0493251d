-- ===== src/Lifecycle.antt =====
-- skills/issue-orchestration/scripts/lifecycle-state-machine.mjs: the lifecycle states of a member issue,
-- the receipts that each requires and allows, the states that may follow it and its next action.
-- `LIFECYCLE_STATE_DEFINITIONS` is an object, so a name that `Object.prototype` has
-- (`constructor`, `toString`) is not among the unknown names here.
mod Definitions
mod Names
pub mod Order
pub mod Routes
pub mod Paths
pub mod Closable
pub mod Demands
pub mod Receipts
mod Examples
pub use Definitions.*
pub use Names.*
