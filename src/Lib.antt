-- ===== src/Lib.antt =====
-- The orchestration runtime of skills/issue-orchestration: how a member issue moves from its
-- discovery to its closure, which stage tasks run side by side, who owns which resource, and how a
-- writer's run, the ledger of events and the landing of commits are kept in order.
--
-- Parts, by file, each of skills/issue-orchestration/scripts:
-- * Lifecycle (lifecycle-state-machine.mjs): `definitions` is `State` with `required_receipts`,
--   `allowed_receipts` and `next`; `assertLifecycleTransition` and `lifecycleActionRule` have the
--   functions of their names.
-- * Dispatch (dispatch-batch-selector.mjs): `Task` and `Rank` are what `compareTasks` reads and
--   how it ranks; `Conflict` and `WorktreeKey` are `conflictWithSelected` and `leaseConflict`;
--   `Select` is the loop of `createBatch`; `Lease` is the life of a dispatch lease.
-- * Resources (resource-lifecycle.mjs): `Registry` is `createResourceRegistry` with
--   `validateRegistry`, `Receipt` is `verifyCleanupReceipt`, `Event` is `applyResourceEvent`, with
--   the functions that it calls in `Event/Changes`.
-- * Watchdog (writer-runtime-watchdog.mjs): `Definitions` has the variables that
--   `createWriterRuntimeWatchdog` closes over as one record, `Calls` has `observe` and
--   `failClosed`.
-- * Ledger (event-ledger.mjs): `Rules` is `transitionTable` and `permitted`, `Groups` is
--   `reduceGroup`.
-- * Landing (repository-landing-lane.mjs): `Lane` is the lane of a repository and its lease,
--   `Handoff` is `validateHandoff` with `orderedMembers`, `Log` is the event log of an attempt,
--   `Creation` is `createLandingAttempt`, `Transplant` is `recordCommitTransplant`, `Continuation`
--   is `recordLandingCheckpoint` with `resumeLandingSlice`, `Evidence` is `recordEvidenceRebinding`
--   with `recordReverificationReceipt`, `Completion` is the human decision, the drift of the
--   remote, `finalizeLanding` and the disposition of a worktree, and `Slice` has the records they
--   share. `Steps` joins the calls on an attempt.
-- * Delivery (delivery-epoch.mjs): `Epoch` has the functions of the file.
-- * Group (acceptance-group-session.mjs): `Proposal` is `proposalIsEligible`, `Session` is the
--   state with its creation, `Operations` and `Commits` are the exported calls, `Status` is
--   `projectGroupStatus`. `Sound` and `Runs` say what sessions are reached.
-- * SlicePlan (slice-plan-validator.mjs): `Plan` is the check of a slice, `Validation` is
--   `compileSlicePlanValidation` with `validateDependencies` and `ownedMap`.
-- * Retry (transient-rollout-retry.mjs): `Rollout` is `classifyTransientEmptyRollout`,
--   `Authorization` is `authorizeTransientEmptyRolloutRetry`.
-- * The prelude is what the parts share. `Result` with `reject` is the source's `fail`, and the
--   texts that the source writes as regular expressions are read by their code points.
-- The parts meet in their data: the lifecycle names the stages of the tasks that dispatch
-- selects, a selected task holds dispatch leases and an attempt with a resource registry, the
-- watchdog guards the attempt of a writer, a plan of slices says what the writer does, and an
-- empty rollout is retried once. What is delivered is bound to an epoch and landed through the
-- lane: the hand-off that a group session makes is the one that the lane takes, and Group.Handoff
-- joins the two. Examples has, in each part, concrete runs of the theorems.
--
-- How the code is modelled. A function that throws returns a `Result`; where a throw leaves a
-- state behind (`observe`), the state is returned with the error. Objects are records; a field
-- that may be missing is an `Option` where the source tells it apart. A map is an association
-- list. The collaborators that are not part of these files are parameters: the SHA-256 digests of
-- canonical JSON, `Date.parse` (no time for NaN), `localeCompare`, and the two checks of other
-- files that SlicePlan and Retry call (`validateRouteBoundActor`,
-- `verifyRuntimeProfileMetadata`). Numbers that the source holds to be finite and not negative
-- are natural numbers, without a bound, since nothing here wraps around. Recursion is structural
-- throughout; the decimal digits of an issue number are made with as much fuel as the number,
-- which is more than it has digits.
--
-- What is not modelled: the checks that typing meets (`typeof`, `Array.isArray`), the payload
-- checks of tasks and node events, the digest of a batch, the observation and removal of
-- processes, ports, locks, files, git worktrees and containers, and the command lines.
-- `toLowerCase` is that of ASCII letters. `reduceNode` and the hash chain of the ledger's replay
-- are left too. Of a landing attempt, the binding of a slice is left, which calls the compilers
-- of prompts and routes. Of a slice plan, the comparison of receipts is left and the policy that
-- is copied out of an accepted proposal; the item `__proto__`, which a plain object does not
-- store as a key, is stored like any other. The sort of a batch stands for that of the runtime,
-- which is stable, and is not code of the repository.
pub mod Prelude
pub mod Lifecycle
pub mod Dispatch
pub mod Resources
pub mod Watchdog
pub mod Ledger
pub mod Landing
pub mod Delivery
pub mod Group
pub mod SlicePlan
pub mod Retry
