-- ===== src/Dispatch/Rank/Total.antt =====
-- `compareTasks` is a consistent comparator, so that the ranking is sorted by it: what a sort asks
-- of its comparator does not go without saying, since the starvation rule looks at both tasks.
pub mod Orders
use Prim.Native.Nat.{compare, Ordering}
use mathlib.Core.Path.{fun_ext}
use issue_orchestration.Prelude.{
  ℕ, String, ◌≡◌, refl, ap, sym, subst, inl, inr, Bool, true, false, List, [], ◌∷◌, ◌&&◌, arith,
  Bool-cases, max, leb, eqb, not, All, All-map, if◌then◌else◌,
}
use issue_orchestration.Dispatch.Task.{Task}
use issue_orchestration.Dispatch.Rank.{
  priority_index, ascending, descending, or_else, compare_fields, compare_tasks, insert, ranked,
  goes_first,
}
use Orders.{IsOrder, or_else-IsOrder, by_key-IsOrder, by_key_down-IsOrder}

-- The age by which the starvation rule ranks: below 1000 it does not count.
abbrev pub starving : Task → ℕ
starving t = if leb 1000 t.starvation_age then t.starvation_age else 0

-- The starvation rule is one more key.
starvation_rule :
    (a b : ℕ) (fields : Ordering)
    → (if leb 1000 (max a b) && not (eqb a b) then descending a b else fields)
      ≡ or_else (descending (if leb 1000 a then a else 0) (if leb 1000 b then b else 0)) fields
starvation_rule a b fields = ground arith

module _ (locale_compare : String → String → Ordering) where
  -- The comparator, one key after the other.
  abbrev pub lexicographic : Task → Task → Ordering
  lexicographic l r =
      or_else (ascending (priority_index l) (priority_index r))
        (or_else (descending (starving l) (starving r)) (compare_fields locale_compare l r))

  pub compare_tasks-lexicographic :
      (l r : Task) → compare_tasks locale_compare l r ≡ lexicographic l r
  unfolding compare_tasks
  compare_tasks-lexicographic l r =
      ap (or_else (ascending (priority_index l) (priority_index r)))
        (starvation_rule l.starvation_age r.starvation_age (compare_fields locale_compare l r))

  -- No task stands behind one that it goes before.
  abbrev pub IsRanked : List Task → Type 0
  IsRanked [] = Unit
  IsRanked (t ∷ ts) =
      All (λ u. goes_first (compare_tasks locale_compare t u) ≡ true) ts × IsRanked ts

  All-insert :
      (P : Task → Type 0) (t : Task) (us : List Task)
      → P t
      → All P us
      → All P (insert locale_compare t us)
  unfolding insert
  All-insert P t [] p h = (p, tt)
  All-insert P t (u ∷ us) p h = elim (Bool-cases (goes_first (compare_tasks locale_compare t u))) [
    | inl e ↦ rw e (p, h)
    | inr e ↦ rw e (h.0, All-insert P t us p h.1)
  ]

  module _ (ties : IsOrder (λ (l r : Task). locale_compare l.task_id r.task_id)) where
    fields-IsOrder : IsOrder (compare_fields locale_compare)
    unfolding compare_fields
    fields-IsOrder =
        or_else-IsOrder _ _ (by_key_down-IsOrder (λ (t : Task). t.downstream_blocked_count)) (
          or_else-IsOrder _ _ (by_key_down-IsOrder (λ (t : Task). t.critical_path_length)) (
            or_else-IsOrder _ _
              (by_key_down-IsOrder (λ (t : Task). t.acceptance_group_completion_value))
              (or_else-IsOrder _ _ (by_key_down-IsOrder (λ (t : Task). t.starvation_age)) ties)))

    lexicographic-IsOrder : IsOrder lexicographic
    lexicographic-IsOrder =
        or_else-IsOrder _ _ (by_key-IsOrder priority_index)
          (or_else-IsOrder _ _ (by_key_down-IsOrder starving) fields-IsOrder)

    -- If the locale compares ids consistently, `compareTasks` is a consistent comparator: swapping
    -- the tasks flips its answer, and what goes first goes first along a chain. So the starvation
    -- rule, which is decided by the older of the two tasks, makes no cycle.
    pub compare_tasks-IsOrder : IsOrder (compare_tasks locale_compare)
    compare_tasks-IsOrder =
        subst IsOrder (sym (fun_ext (λ l. fun_ext (λ r. compare_tasks-lexicographic l r))))
          lexicographic-IsOrder

    after_flip :
        (t u : Task)
        → goes_first (compare_tasks locale_compare t u) ≡ false
        → goes_first (compare_tasks locale_compare u t) ≡ true
    after_flip t u h = ground (arith, compare_tasks-IsOrder.flipped t u)

    insert-IsRanked :
        (t : Task) (us : List Task) → IsRanked us → IsRanked (insert locale_compare t us)
    unfolding insert
    insert-IsRanked t [] h = (tt, tt)
    insert-IsRanked t (u ∷ us) h =
        elim (Bool-cases (goes_first (compare_tasks locale_compare t u))) [
          | inl e ↦ rw e (
            (
              e,
              All-map (λ v. goes_first (compare_tasks locale_compare u v) ≡ true)
                  (λ v. goes_first (compare_tasks locale_compare t v) ≡ true) us
                  (λ v p. compare_tasks-IsOrder.chained t u v e p) h.0,
            ),
            h,
          )
          | inr e ↦ rw e (
            All-insert (λ v. goes_first (compare_tasks locale_compare u v) ≡ true) t us
                (after_flip t u e) h.0,
            insert-IsRanked t us h.1,
          )
        ]

    -- The ranking is sorted by `compareTasks`.
    pub ranked-IsRanked : (ts : List Task) → IsRanked (ranked locale_compare ts)
    unfolding ranked
    ranked-IsRanked [] = tt
    ranked-IsRanked (t ∷ ts) = insert-IsRanked t (ranked locale_compare ts) (ranked-IsRanked ts)
