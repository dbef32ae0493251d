-- ===== src/Landing.antt =====
-- skills/issue-orchestration/scripts/repository-landing-lane.mjs: the lane of a repository, the
-- hand-off that it accepts and the event log of an attempt.
pub mod Lane
pub mod Handoff
mod Slice
mod Log
mod Creation
mod Transplant
mod Continuation
mod Evidence
mod Completion
mod Members
mod Verified
mod Branch
mod Linear
mod Steps
mod Resumed
mod Examples
