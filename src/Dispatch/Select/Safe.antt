-- ===== src/Dispatch/Select/Safe.antt =====
-- The tasks of a batch can run side by side, and no active lease stands in their way.
use Prim.Native.Nat.{Ordering}
use issue_orchestration.Prelude.{
  ℕ, ◌≤◌, String, ◌≡◌, inl, inr, true, none, List, [], ◌∷◌, ◌++◌, ◌==◌, ◌&&◌, arith, Bool-cases,
  ltb, length, length-append, All, All-append,
}
use issue_orchestration.Dispatch.Task.{Task}
use issue_orchestration.Dispatch.Rank.{ranked}
use issue_orchestration.Dispatch.Lease.{Lease}
use issue_orchestration.Dispatch.Conflict.{conflict_with_selected, lease_conflict}
use issue_orchestration.Dispatch.Conflict.Meaning.{
  Compatible, Leaves, conflict_with_selected-Compatible, lease_conflict-Leaves,
}
use issue_orchestration.Dispatch.Select.{
  Batch, place, place_all, empty_batch, select_tasks, blocked_by, is_none,
}

-- Each task of the list can run beside those before it.
abbrev pub SideBySide : List Task → Type 0
SideBySide [] = Unit
SideBySide (t ∷ ts) = All (λ u. Compatible u t) ts × SideBySide ts

SideBySide-append :
    (ts : List Task) (t : Task) → SideBySide ts → All (Compatible t) ts → SideBySide (ts ++ t ∷ [])
SideBySide-append [] t h c = (tt, tt)
SideBySide-append (u ∷ ts) t h c =
    (All-append (λ v. Compatible v u) ts (t ∷ []) h.0 (c.0, tt), SideBySide-append ts t h.1 c.1)

-- No active lease holds anything that the task needs.
abbrev pub Unheld : List Lease → Task → Type 0
Unheld leases t = All (λ l. (l.state == "active") ≡ true → Leaves t l) leases

pub record IsSafe (leases : List Lease) (slots : ℕ) (b : Batch) : Type 0 where
  pub within_slots : length b.selected ≤ slots
  pub side_by_side : SideBySide b.selected
  pub unheld : All (Unheld leases) b.selected

blocked_by-none :
    (leases : List Lease) (selected : List Task) (t : Task)
    → is_none (blocked_by leases selected t) ≡ true
    → (lease_conflict t leases ≡ none) × (conflict_with_selected t selected ≡ none)
unfolding blocked_by
blocked_by-none leases selected t h = ground arith

place-IsSafe :
    (leases : List Lease) (slots : ℕ) (b : Batch) (t : Task)
    → IsSafe leases slots b
    → IsSafe leases slots (place leases slots b t)
unfolding place
place-IsSafe leases slots b t s =
    elim (Bool-cases (is_none (blocked_by leases b.selected t) && ltb (length b.selected) slots)) [
      | inl e ↦
          let (free, fits) = blocked_by-none leases b.selected t (ground arith) in
          rw e (record {
            within_slots = ground (arith, length-append b.selected (t ∷ []));
            side_by_side =
                SideBySide-append b.selected t s.side_by_side
                  (conflict_with_selected-Compatible t b.selected fits);
            unheld =
                All-append (Unheld leases) b.selected (t ∷ []) s.unheld
                  (lease_conflict-Leaves t leases free, tt);
          })
      | inr e ↦ rw e (record {
        within_slots = s.within_slots;
        side_by_side = s.side_by_side;
        unheld = s.unheld;
      })
    ]

place_all-IsSafe :
    (leases : List Lease) (slots : ℕ) (b : Batch) (ts : List Task)
    → IsSafe leases slots b
    → IsSafe leases slots (place_all leases slots b ts)
unfolding place_all
place_all-IsSafe leases slots b [] s = s
place_all-IsSafe leases slots b (t ∷ ts) s =
    place_all-IsSafe leases slots (place leases slots b t) ts (place-IsSafe leases slots b t s)

-- Whatever the tasks, the leases and the locale, the batch takes no more tasks than there are
-- slots; of two tasks of it, the later shares no conflict key, no writer's worktree and no
-- exclusive resource with the earlier; and no active lease holds a key or the worktree of any.
pub select_tasks-IsSafe :
    (locale_compare : String → String → Ordering) (leases : List Lease) (slots : ℕ)
    (tasks : List Task)
    → IsSafe leases slots (select_tasks locale_compare leases slots tasks)
unfolding select_tasks
select_tasks-IsSafe locale_compare leases slots tasks =
    place_all-IsSafe leases slots empty_batch (ranked locale_compare tasks)
      (record { within_slots = omega arith; side_by_side = tt; unheld = tt })
