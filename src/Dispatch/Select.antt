-- ===== src/Dispatch/Select.antt =====
-- The loop of `createBatch` over the ranked tasks.
pub mod Safe
pub mod Complete
use issue_orchestration.Prelude.{
  ℕ, String, Bool, true, false, ◌&&◌, Option, none, some, List, [], ◌∷◌, ◌++◌, length, map, ltb,
  if◌then◌else◌,
}
use Prim.Native.Nat.{Ordering}
use issue_orchestration.Dispatch.Rank.{ranked}
use issue_orchestration.Dispatch.Task.{Task}
use issue_orchestration.Dispatch.Lease.{Lease}
use issue_orchestration.Dispatch.Conflict.{
  DeferCode, ranked_beyond_slot_limit, Blocked, or_else, conflict_with_selected, lease_conflict,
}

pub record Deferred : Type 0 where
  pub task : Task
  pub reason : Blocked

pub record Batch : Type 0 where
  pub selected : List Task
  pub deferred : List Deferred

-- leaseConflict(task, activeLeases) ?? conflictWithSelected(task, selectedTasks)
unfoldable pub blocked_by : List Lease → List Task → Task → Option Blocked
blocked_by leases selected task =
    or_else (lease_conflict task leases) (conflict_with_selected task selected)

-- The reason of a task that nothing blocks and that finds every slot taken.
abbrev pub beyond_slots : List Task → Blocked
beyond_slots selected = record {
  code = ranked_beyond_slot_limit;
  blockers = map (λ t. t.task_id) selected;
  keys = [];
}

abbrev pub reason_of : Option Blocked → List Task → Blocked
reason_of (some blocked) selected = blocked
reason_of none selected = beyond_slots selected

abbrev pub is_none {ℓ} : {A : Type ℓ} → Option A → Bool
is_none none = true
is_none (some a) = false

-- One round of the loop.
unfoldable pub place : List Lease → ℕ → Batch → Task → Batch
place leases available_slots batch task =
    let blocked = blocked_by leases batch.selected task in
    if is_none blocked && ltb (length batch.selected) available_slots
    then record batch { selected = batch.selected ++ task ∷ [] }
    else record batch {
      deferred =
          batch.deferred ++ record { task = task; reason = reason_of blocked batch.selected } ∷ [];
    }

unfoldable pub place_all : List Lease → ℕ → Batch → List Task → Batch
place_all leases available_slots batch [] = batch
place_all leases available_slots batch (t ∷ tasks) =
    place_all leases available_slots (place leases available_slots batch t) tasks

abbrev pub empty_batch : Batch
empty_batch = record { selected = []; deferred = [] }

-- What createBatch selects and defers, from its tasks, leases and slots.
module _ (locale_compare : String → String → Ordering) where
  unfoldable pub select_tasks : List Lease → ℕ → List Task → Batch
  select_tasks leases available_slots tasks =
      place_all leases available_slots empty_batch (ranked locale_compare tasks)
