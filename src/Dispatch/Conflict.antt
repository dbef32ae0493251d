-- ===== src/Dispatch/Conflict.antt =====
-- `conflictWithSelected` and `leaseConflict`: why a task cannot join the tasks that are selected.
pub mod Meaning
use issue_orchestration.Prelude.{
  String, Bool, Option, none, some, List, [], ◌∷◌, ◌++◌, ◌==◌, not, ◌&&◌, ◌||◌, filter, any,
  if◌then◌else◌,
}
use issue_orchestration.Dispatch.Task.{Task, ExecutionClass, writes}
use issue_orchestration.Dispatch.Lease.{Lease, Body, overlap, is_empty}
use issue_orchestration.Dispatch.WorktreeKey.{worktree_key_matches}

-- The codes of DEFER_CODES that `createBatch` gives.
pub data DeferCode : Type 0 where
  write_conflict worktree_write_conflict resource_lease_held ranked_beyond_slot_limit : DeferCode

pub record Blocked : Type 0 where
  pub code : DeferCode
  pub blockers : List String
  pub keys : List String

-- The body of the loop of conflictWithSelected, for one task that is selected.
unfoldable pub conflict_with : Task → Task → Option Blocked
conflict_with task other =
    let shared = overlap task.conflict_keys other.conflict_keys in
    let resources = overlap task.exclusive_resource_keys other.exclusive_resource_keys in
    if not (is_empty shared)
    then some (record { code = write_conflict; blockers = other.task_id ∷ []; keys = shared })
    else if writes task.execution_class
        && (writes other.execution_class && task.issue_worktree_id == other.issue_worktree_id)
    then some (record {
      code = worktree_write_conflict;
      blockers = other.task_id ∷ [];
      keys = task.issue_worktree_id ∷ [];
    })
    else if not (is_empty resources)
    then some
        (record { code = resource_lease_held; blockers = other.task_id ∷ []; keys = resources })
    else none

-- a ?? b
abbrev pub or_else {ℓ} : {A : Type ℓ} → Option A → Option A → Option A
or_else (some a) b = some a
or_else none b = b

-- conflictWithSelected
unfoldable pub conflict_with_selected : Task → List Task → Option Blocked
conflict_with_selected task [] = none
conflict_with_selected task (other ∷ selected) =
    or_else (conflict_with task other) (conflict_with_selected task selected)

-- The keys of an active lease that stand in a task's way.
unfoldable pub held_keys : Task → Lease → List String
held_keys task lease =
    let keys = overlap (task.conflict_keys ++ task.exclusive_resource_keys) lease.keys in
    if writes task.execution_class && is_empty keys
    then filter (worktree_key_matches task) lease.keys
    else keys

-- leaseConflict
unfoldable pub lease_conflict : Task → List Lease → Option Blocked
lease_conflict task [] = none
lease_conflict task (lease ∷ leases) =
    let rest = lease_conflict task leases in
    if not (lease.state == "active")
    then rest
    else if is_empty (held_keys task lease)
    then rest
    else some (record {
      code = resource_lease_held;
      blockers = lease.stage_task_id ∷ [];
      keys = held_keys task lease;
    })
