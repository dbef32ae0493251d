-- ===== src/SlicePlan.antt =====
-- The validation of a slice plan: skills/issue-orchestration/scripts/slice-plan-validator.mjs.
mod Plan
mod Validation
mod Sorted
mod Order
mod Owners
mod Examples
