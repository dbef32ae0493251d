-- ===== src/Dispatch/Examples.antt =====
-- Two tasks that share a conflict key, and a lease that is acquired and recovered.
use Prim.Native.Nat.{Ordering}
use mathlib.Core.List.{Perm}
use issue_orchestration.Prelude.{
  ℕ, String, true, Option, some, none, List, [], ◌∷◌, ◌≡◌, refl, length, ok, zero_hash,
  zero_hash-is_hash, arith, All, inr, err, ◌==◌, if◌then◌else◌, filter, includes, ◌↔◌, any, codes,
}
use issue_orchestration.Dispatch.Task.{Task, leased_writer}
use issue_orchestration.Dispatch.Rank.{compare_tasks, ranked, ascending}
use issue_orchestration.Dispatch.Rank.Total.{compare_tasks-IsOrder}
use issue_orchestration.Dispatch.Rank.Policy.{IsByPolicy, ranked-IsByPolicy}
use issue_orchestration.Dispatch.Rank.Total.Orders.{IsOrder, by_key-IsOrder}
use issue_orchestration.Dispatch.Lease.{
  Lease, Body, Request, RecoveryEvidence, validate_lease, sealed, acquired_body, check_free,
  acquire_dispatch_lease, recover_expired_dispatch_lease, incomplete, after, overlap,
  lease_conflict_held,
}
use issue_orchestration.Dispatch.Lease.Exclusive.{acquire, Exclusive, Step-Exclusive}
use issue_orchestration.Dispatch.Lease.Exact.{Yields, acquire_exact}
use issue_orchestration.Dispatch.Lease.Freed.{ended_unblocks, undated_recovery_unblocks}
use issue_orchestration.Dispatch.Select.{select_tasks}
use issue_orchestration.Dispatch.Select.Safe.{IsSafe, select_tasks-IsSafe}
use issue_orchestration.Dispatch.Select.Complete.{
  Explained, tasks_of, select_tasks_work_conserving, select_tasks-perm,
}

-- A locale that compares texts by their length.
abbrev by_length : String → String → Ordering
by_length a b = ascending (length (codes a)) (length (codes b))

by_length-IsOrder : IsOrder (λ (l r : Task). by_length l.task_id r.task_id)
by_length-IsOrder = by_key-IsOrder (λ (t : Task). length (codes t.task_id))

abbrev task : String → String → Task
task id priority = record {
  task_id = id;
  issue_id = id;
  repository = "o/r";
  issue_number = 1;
  stage_kind = "implementation";
  stage_role = "code-implementer";
  execution_class = leased_writer;
  priority_class = priority;
  starvation_age = 0;
  downstream_blocked_count = 0;
  critical_path_length = 0;
  acceptance_group_completion_value = 0;
  conflict_keys = "file.mjs" ∷ [];
  exclusive_resource_keys = [];
  issue_worktree_id = id;
}

abbrev tasks : List Task
tasks = task "slow" "P2" ∷ task "fast" "P0" ∷ []

abbrev digest : Body → String
digest b = zero_hash

abbrev clock : String → Option ℕ
clock time = some 0

-- A clock that reads two texts as dates.
abbrev day : String → Option ℕ
day time = if time == "now" then some 1 else if time == "later" then some 2 else none

abbrev request : Request
request = record {
  lease_id = "lease-1";
  kind = "file";
  keys = "file.mjs" ∷ [];
  owner_id = "owner";
  attempt_id = "attempt-1";
  stage_task_id = "slow";
  acquired_at = "now";
  expires_at = "later";
  recovery_rule = "expiry";
}

abbrev lease : Lease
lease = sealed digest (acquired_body request)

compare_tasks-IsOrder_example : IsOrder (compare_tasks by_length)
compare_tasks-IsOrder_example = compare_tasks-IsOrder by_length by_length-IsOrder

ranked-IsByPolicy_example : IsByPolicy by_length (ranked by_length tasks)
ranked-IsByPolicy_example = ranked-IsByPolicy by_length by_length-IsOrder tasks

select_tasks-IsSafe_example : IsSafe (lease ∷ []) 2 (select_tasks by_length (lease ∷ []) 2 tasks)
select_tasks-IsSafe_example = select_tasks-IsSafe by_length (lease ∷ []) 2 tasks

select_tasks_work_conserving_example :
    All
      (Explained [] 2 (select_tasks by_length [] 2 tasks).selected)
      (select_tasks by_length [] 2 tasks).deferred
select_tasks_work_conserving_example = select_tasks_work_conserving by_length [] 2 tasks

select_tasks-perm_example : Perm (tasks_of (select_tasks by_length [] 2 tasks)) tasks
select_tasks-perm_example = select_tasks-perm by_length [] 2 tasks

lease-valid : validate_lease digest lease ≡ ok lease
unfolding validate_lease incomplete any
lease-valid = refl

lease-acquired : acquire_dispatch_lease digest clock [] request ≡ ok lease
unfolding acquire_dispatch_lease check_free validate_lease incomplete any
lease-acquired = refl

Step-Exclusive_example : Exclusive (lease ∷ [])
Step-Exclusive_example =
    Step-Exclusive digest clock [] (lease ∷ []) (acquire request lease lease-acquired refl) tt

acquire_exact_example :
    (acquire_dispatch_lease digest clock [] request ≡ ok lease)
    ↔ (All (Yields digest clock request) [] × (validate_lease digest lease ≡ ok lease))
acquire_exact_example = acquire_exact digest clock [] request

abbrev evidence : RecoveryEvidence
evidence = record {
  owner_attempt_terminal = true;
  owner_process_absent = true;
  evidence_digest = some zero_hash;
}

abbrev recovered : Lease
recovered = sealed digest (record lease.body {
  state = "recovered";
  recovered_at = some "evening";
  recovery_evidence = some evidence;
})

lease-recovered :
    recover_expired_dispatch_lease digest clock lease "evening" evidence ≡ ok recovered
unfolding recover_expired_dispatch_lease validate_lease incomplete any after
lease-recovered = rw zero_hash-is_hash refl

ended_unblocks_example :
    acquire_dispatch_lease digest clock (recovered ∷ []) request
    ≡ acquire_dispatch_lease digest clock [] request
ended_unblocks_example =
    ended_unblocks digest clock [] [] request lease recovered "" "evening" evidence
      (inr lease-recovered)

undated_recovery_unblocks_example :
    (acquire_dispatch_lease digest day (lease ∷ []) request ≡ err lease_conflict_held)
    × ((l' : Lease) × (recover_expired_dispatch_lease digest day lease "soon" evidence ≡ ok l')
        × (acquire_dispatch_lease digest day (l' ∷ []) request
            ≡ acquire_dispatch_lease digest day [] request))
unfolding overlap filter includes
undated_recovery_unblocks_example =
    undated_recovery_unblocks digest day [] lease request 2 1 "soon" evidence lease-valid refl refl
      refl refl (omega arith) refl refl refl zero_hash-is_hash
