-- ===== src/Ledger.antt =====
-- skills/issue-orchestration/scripts/event-ledger.mjs: the transition table and the group reducer.
mod Rules
mod Groups
mod Owners
mod Closing
mod Examples
