-- ===== src/Dispatch/Select/Complete.antt =====
-- A batch accounts for every task, and keeps no slot idle for a task that could run.
use Prim.Native.Nat.{Ordering}
use mathlib.Core.List.{Perm, perm_middle, append_assoc, append-nil, map-append}
use mathlib.Core.List.Perm
use issue_orchestration.Prelude.{
  ℕ, ◌≤◌, ◌<◌, String, ◌≡◌, ◌⊎◌, inl, inr, false, none, some, List, [], ◌∷◌, ◌++◌, ◌&&◌, map, subst,
  arith, Bool-cases, ltb, length, length-append, All, All-append, All-map,
}
use issue_orchestration.Dispatch.Task.{Task}
use issue_orchestration.Dispatch.Rank.{ranked, insert, goes_first, compare_tasks}
use issue_orchestration.Dispatch.Lease.{Lease}
use issue_orchestration.Dispatch.Conflict.{Blocked, conflict_with_selected}
use issue_orchestration.Dispatch.Select.{
  Batch, Deferred, place, place_all, empty_batch, select_tasks, blocked_by, is_none, beyond_slots,
  reason_of,
}

-- The reason of a deferred task holds of the batch: something in it or a lease blocks the task, or
-- nothing does and every slot is taken.
abbrev pub Explained : List Lease → ℕ → List Task → Deferred → Type 0
Explained leases slots selected d =
    (blocked_by leases selected d.task ≡ some d.reason)
    ⊎ ((blocked_by leases selected d.task ≡ none)
        × (length selected ≡ slots)
        × (d.reason ≡ beyond_slots selected))

-- A conflict with the selected tasks stays when more tasks are selected.
conflict_stays :
    (t u : Task) (selected : List Task) (b : Blocked)
    → conflict_with_selected t selected ≡ some b
    → conflict_with_selected t (selected ++ u ∷ []) ≡ some b
unfolding conflict_with_selected
conflict_stays t u [] b h = cc
conflict_stays t u (v ∷ selected) b h = ground (arith, conflict_stays t u selected b)

blocked_stays :
    (leases : List Lease) (t u : Task) (selected : List Task) (b : Blocked)
    → blocked_by leases selected t ≡ some b
    → blocked_by leases (selected ++ u ∷ []) t ≡ some b
unfolding blocked_by
blocked_stays leases t u selected b h = ground (arith, conflict_stays t u selected b)

Explained-grows :
    (leases : List Lease) (slots : ℕ) (selected : List Task) (u : Task) (d : Deferred)
    → length selected < slots
    → Explained leases slots selected d
    → Explained leases slots (selected ++ u ∷ []) d
Explained-grows leases slots selected u d room (inl h) =
    inl (blocked_stays leases d.task u selected d.reason h)
Explained-grows leases slots selected u d room (inr h) = absurd (omega arith)

reason-Explained :
    (leases : List Lease) (slots : ℕ) (selected : List Task) (t : Task)
    → length selected ≤ slots
    → (is_none (blocked_by leases selected t) && ltb (length selected) slots) ≡ false
    → Explained leases slots selected
        (record { task = t; reason = reason_of (blocked_by leases selected t) selected })
reason-Explained leases slots selected t le h = ground arith

record IsExplained (leases : List Lease) (slots : ℕ) (b : Batch) : Type 0 where
  within_slots : length b.selected ≤ slots
  explained : All (Explained leases slots b.selected) b.deferred

place-IsExplained :
    (leases : List Lease) (slots : ℕ) (b : Batch) (t : Task)
    → IsExplained leases slots b
    → IsExplained leases slots (place leases slots b t)
unfolding place
place-IsExplained leases slots b t s =
    elim (Bool-cases (is_none (blocked_by leases b.selected t) && ltb (length b.selected) slots)) [
      | inl e ↦ rw e (record {
        within_slots = ground (arith, length-append b.selected (t ∷ []));
        explained =
            All-map (Explained leases slots b.selected)
              (Explained leases slots (b.selected ++ t ∷ [])) b.deferred
              (λ d x. Explained-grows leases slots b.selected t d (ground arith) x) s.explained;
      })
      | inr e ↦ rw e (record {
        within_slots = s.within_slots;
        explained =
            All-append (Explained leases slots b.selected) b.deferred (_ ∷ []) s.explained
              (reason-Explained leases slots b.selected t s.within_slots e, tt);
      })
    ]

place_all-IsExplained :
    (leases : List Lease) (slots : ℕ) (b : Batch) (ts : List Task)
    → IsExplained leases slots b
    → IsExplained leases slots (place_all leases slots b ts)
unfolding place_all
place_all-IsExplained leases slots b [] s = s
place_all-IsExplained leases slots b (t ∷ ts) s =
    place_all-IsExplained leases slots (place leases slots b t) ts
      (place-IsExplained leases slots b t s)

-- The batch keeps no slot idle: each deferred task has a reason that holds of the final batch,
-- and is a lease or a selected task that blocks it, or, where nothing does, that the selected
-- tasks take every slot.
pub select_tasks_work_conserving :
    (locale_compare : String → String → Ordering) (leases : List Lease) (slots : ℕ)
    (tasks : List Task)
    → let b = select_tasks locale_compare leases slots tasks in
      All (Explained leases slots b.selected) b.deferred
unfolding select_tasks
select_tasks_work_conserving locale_compare leases slots tasks =
    (place_all-IsExplained leases slots empty_batch (ranked locale_compare tasks)
      (record { within_slots = omega arith; explained = tt })).explained

-- All the tasks of a batch.
abbrev pub tasks_of : Batch → List Task
tasks_of b = b.selected ++ map (λ (d : Deferred). d.task) b.deferred

snoc-perm : (xs : List Task) (t : Task) → Perm (xs ++ t ∷ []) (t ∷ xs)
snoc-perm xs t = subst (λ ys. Perm (xs ++ t ∷ []) (t ∷ ys)) (append-nil xs) (perm_middle xs [])

place-perm :
    (leases : List Lease) (slots : ℕ) (b : Batch) (t : Task)
    → Perm (tasks_of (place leases slots b t)) (t ∷ tasks_of b)
unfolding place
place-perm leases slots b t =
    elim (Bool-cases (is_none (blocked_by leases b.selected t) && ltb (length b.selected) slots)) [
      | inl e ↦ rw e (rw append_assoc (perm_middle b.selected _))
      | inr e ↦ rw e (rw (map-append, ← append_assoc) (snoc-perm (tasks_of b) t))
    ]

place_all-perm :
    (leases : List Lease) (slots : ℕ) (b : Batch) (ts : List Task)
    → Perm (tasks_of (place_all leases slots b ts)) (tasks_of b ++ ts)
unfolding place_all
place_all-perm leases slots b [] = rw append-nil (Perm.refl _)
place_all-perm leases slots b (t ∷ ts) =
    Perm.trans (place_all-perm leases slots (place leases slots b t) ts) (
      Perm.trans (Perm.append (place-perm leases slots b t) (Perm.refl ts))
        (Perm.symm (perm_middle (tasks_of b) ts)))

module _ (locale_compare : String → String → Ordering) where
  insert-perm : (t : Task) (us : List Task) → Perm (insert locale_compare t us) (t ∷ us)
  unfolding insert
  insert-perm t [] = Perm.refl _
  insert-perm t (u ∷ us) = elim (Bool-cases (goes_first (compare_tasks locale_compare t u))) [
    | inl e ↦ rw e (Perm.refl _)
    | inr e ↦ rw e (Perm.trans (Perm.cons u (insert-perm t us)) (Perm.swap t u us))
  ]

  pub ranked-perm : (ts : List Task) → Perm (ranked locale_compare ts) ts
  unfolding ranked
  ranked-perm [] = Perm.refl []
  ranked-perm (t ∷ ts) =
      Perm.trans (insert-perm t (ranked locale_compare ts)) (Perm.cons t (ranked-perm ts))

-- A batch selects or defers each task that it is given, and each once.
pub select_tasks-perm :
    (locale_compare : String → String → Ordering) (leases : List Lease) (slots : ℕ)
    (tasks : List Task)
    → Perm (tasks_of (select_tasks locale_compare leases slots tasks)) tasks
unfolding select_tasks
select_tasks-perm locale_compare leases slots tasks =
    Perm.trans (place_all-perm leases slots empty_batch (ranked locale_compare tasks))
      (ranked-perm locale_compare tasks)
