-- ===== src/Retry.antt =====
-- The retry of a rollout that ended empty: skills/issue-orchestration/scripts/transient-rollout-retry.mjs.
mod Rollout
mod Authorization
mod Budget
mod Examples
