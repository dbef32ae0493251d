-- ===== src/Dispatch/Rank/Policy.antt =====
-- The order in which `compareTasks` ranks tasks, as a lexicographic order on their fields.
use Prim.Native.Nat.{Ordering}
use issue_orchestration.Prelude.{
  ℕ, String, ◌≡◌, ◌<◌, ◌⊎◌, inl, inr, true, List, [], ◌∷◌, arith, subst, All, All-map,
}
use issue_orchestration.Dispatch.Task.{Task}
use issue_orchestration.Dispatch.Rank.{
  priority_index, ascending, descending, or_else, compare_fields, compare_tasks, ranked, goes_first,
}
use issue_orchestration.Dispatch.Rank.Total.{
  IsRanked, starving, compare_tasks-lexicographic, ranked-IsRanked,
}
use issue_orchestration.Dispatch.Rank.Total.Orders.{IsOrder}

-- A smaller number decides, and between equal numbers what comes after does.
abbrev pub Smaller : ℕ → ℕ → Type 0 → Type 0
Smaller a b After = (a < b) ⊎ ((a ≡ b) × After)

-- A larger number decides, and between equal numbers what comes after does.
abbrev pub Larger : ℕ → ℕ → Type 0 → Type 0
Larger a b After = (b < a) ⊎ ((a ≡ b) × After)

ascending-Smaller :
    (a b : ℕ) (after : Ordering)
    → goes_first (or_else (ascending a b) after) ≡ true
    → Smaller a b (goes_first after ≡ true)
ascending-Smaller a b after h = ground arith

descending-Larger :
    (a b : ℕ) (after : Ordering)
    → goes_first (or_else (descending a b) after) ≡ true
    → Larger a b (goes_first after ≡ true)
descending-Larger a b after h = ground arith

Smaller-map : (a b : ℕ) {P Q : Type 0} → (P → Q) → Smaller a b P → Smaller a b Q
Smaller-map a b f (inl less) = inl less
Smaller-map a b f (inr (same, after)) = inr (same, f after)

Larger-map : (a b : ℕ) {P Q : Type 0} → (P → Q) → Larger a b P → Larger a b Q
Larger-map a b f (inl more) = inl more
Larger-map a b f (inr (same, after)) = inr (same, f after)

module _ (locale_compare : String → String → Ordering) where
  -- The order of the policy: the priority class, then the age if it counts as starving, then the
  -- ranking fields in their order, then the id.
  abbrev pub PolicyFirst : Task → Task → Type 0
  PolicyFirst t u = Smaller (priority_index t) (priority_index u) (
      Larger (starving t) (starving u) (
        Larger t.downstream_blocked_count u.downstream_blocked_count (
          Larger t.critical_path_length u.critical_path_length (
            Larger t.acceptance_group_completion_value u.acceptance_group_completion_value (
              Larger t.starvation_age u.starvation_age
                (goes_first (locale_compare t.task_id u.task_id) ≡ true))))))

  fields-PolicyFirst :
      (t u : Task)
      → goes_first (compare_fields locale_compare t u) ≡ true
      → Larger t.downstream_blocked_count u.downstream_blocked_count (
          Larger t.critical_path_length u.critical_path_length (
            Larger t.acceptance_group_completion_value u.acceptance_group_completion_value (
              Larger t.starvation_age u.starvation_age
                (goes_first (locale_compare t.task_id u.task_id) ≡ true))))
  unfolding compare_fields
  fields-PolicyFirst t u h =
      Larger-map _ _
        (λ h1.
          Larger-map _ _
            (λ h2. Larger-map _ _ (λ h3. descending-Larger _ _ _ h3) (descending-Larger _ _ _ h2))
            (descending-Larger _ _ _ h1))
        (descending-Larger _ _ _ h)

  goes_first-PolicyFirst :
      (t u : Task) → goes_first (compare_tasks locale_compare t u) ≡ true → PolicyFirst t u
  goes_first-PolicyFirst t u h =
      Smaller-map _ _
        (λ h1. Larger-map _ _ (λ h2. fields-PolicyFirst t u h2) (descending-Larger _ _ _ h1))
        (ascending-Smaller _ _ _
          (subst (λ o. goes_first o ≡ true) (compare_tasks-lexicographic locale_compare t u) h))

  -- Each task goes first, by the policy, among itself and those behind it.
  abbrev pub IsByPolicy : List Task → Type 0
  IsByPolicy [] = Unit
  IsByPolicy (t ∷ ts) = All (PolicyFirst t) ts × IsByPolicy ts

  IsRanked-IsByPolicy : (ts : List Task) → IsRanked locale_compare ts → IsByPolicy ts
  IsRanked-IsByPolicy [] h = tt
  IsRanked-IsByPolicy (t ∷ ts) h =
      (All-map _ (PolicyFirst t) ts (goes_first-PolicyFirst t) h.0, IsRanked-IsByPolicy ts h.1)

  -- If the locale compares ids consistently, then of any two tasks of the ranking, the one in front
  -- has the priority class with the smaller `indexOf`; of the same index, the higher age if one is
  -- 1000 or more; then more blocked tasks downstream, a longer critical path, a higher completion
  -- value of its group and a higher age, each where the numbers before are equal; and otherwise
  -- the locale does not put its id behind the other's. The ranking stands for what
  -- `Array.prototype.sort` makes of the tasks with `compareTasks`.
  pub ranked-IsByPolicy :
      IsOrder (λ (l r : Task). locale_compare l.task_id r.task_id)
      → (ts : List Task) → IsByPolicy (ranked locale_compare ts)
  ranked-IsByPolicy ties ts =
      IsRanked-IsByPolicy (ranked locale_compare ts) (ranked-IsRanked locale_compare ties ts)
