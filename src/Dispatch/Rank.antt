-- ===== src/Dispatch/Rank.antt =====
-- `compareTasks` and the ranking of `createBatch`. `String.prototype.localeCompare` is a parameter:
-- what it answers depends on the locale of the runtime.
pub mod Total
pub mod Policy
use Prim.Native.Nat.{compare, Ordering}
use issue_orchestration.Prelude.{
  ℕ, zero, suc, ◌+◌, String, Bool, true, false, List, [], ◌∷◌, ◌==◌, max, leb, eqb, not, ◌&&◌,
  if◌then◌else◌,
}
use issue_orchestration.Dispatch.Task.{Task}

-- One more than `list.indexOf(value)`, so that the -1 of a missing value is 0.
unfoldable pub index_from : ℕ → List String → String → ℕ
index_from i [] value = 0
index_from i (x ∷ xs) value = if x == value then i else index_from (suc i) xs value

-- POLICY.priorityOrder
abbrev pub priority_order : List String
priority_order = "P0" ∷ "P1" ∷ "P2" ∷ []

unfoldable pub priority_index : Task → ℕ
unfolding index_from
priority_index t = index_from 1 priority_order t.priority_class

-- `left - right`, by its sign: a smaller left goes first.
abbrev pub ascending : ℕ → ℕ → Ordering
ascending left right = compare left right

-- `right - left`, by its sign: a larger left goes first.
abbrev pub descending : ℕ → ℕ → Ordering
descending left right = compare right left

-- `if (difference) return difference`, and otherwise what comes after.
abbrev pub or_else : Ordering → Ordering → Ordering
or_else Ordering.eq after = after
or_else Ordering.lt after = Ordering.lt
or_else Ordering.gt after = Ordering.gt

-- comparator(left, right) <= 0
abbrev pub goes_first : Ordering → Bool
goes_first Ordering.gt = false
goes_first _ = true

module _ (locale_compare : String → String → Ordering) where
  -- The loop over the ranking fields, and the tie break by `taskId`.
  unfoldable pub compare_fields : Task → Task → Ordering
  compare_fields left right =
      or_else (descending left.downstream_blocked_count right.downstream_blocked_count) (
        or_else (descending left.critical_path_length right.critical_path_length) (
          or_else
            (descending left.acceptance_group_completion_value
              right.acceptance_group_completion_value)
            (or_else (descending left.starvation_age right.starvation_age)
              (locale_compare left.task_id right.task_id))))

  -- compareTasks
  unfoldable pub compare_tasks : Task → Task → Ordering
  compare_tasks left right = or_else (ascending (priority_index left) (priority_index right)) (
      if leb 1000 (max left.starvation_age right.starvation_age)
        && not (eqb left.starvation_age right.starvation_age)
      then descending left.starvation_age right.starvation_age
      else compare_fields left right)

  -- [...tasks].sort(compareTasks), which keeps the order of tasks that compare equal.
  unfoldable pub insert : Task → List Task → List Task
  insert t [] = t ∷ []
  insert t (u ∷ us) =
      let rest = insert t us in if goes_first (compare_tasks t u) then t ∷ u ∷ us else u ∷ rest

  unfoldable pub ranked : List Task → List Task
  unfolding insert
  ranked [] = []
  ranked (t ∷ ts) = insert t (ranked ts)
