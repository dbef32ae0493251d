-- ===== src/Group.antt =====
-- The session of an acceptance group: skills/issue-orchestration/scripts/acceptance-group-session.mjs.
mod Proposal
mod Session
mod Operations
mod Commits
mod Sound
mod Status
mod Blocking
mod Fits
mod Leased
mod Kept
mod Stale
mod Runs
mod Mapping
mod Handoff
mod Examples
