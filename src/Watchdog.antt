-- ===== src/Watchdog.antt =====
-- skills/issue-orchestration/scripts/writer-runtime-watchdog.mjs: the watchdog over a writer's run.
mod Definitions
mod Calls
mod States
mod Branches
mod Sound
mod Leaves
mod Earned
mod Budget
mod Examples
