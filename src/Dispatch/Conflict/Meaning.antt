-- ===== src/Dispatch/Conflict/Meaning.antt =====
-- What it means that no conflict is found: shared keys, worktrees and leases in words of
-- membership.
use issue_orchestration.Prelude.{
  String, ◌≡◌, ◌≢◌, inl, inr, Bool, true, false, none, List, [], ◌∷◌, ◌++◌, ◌==◌, Memᴰ, arith,
  eq_iff, Bool-cases, filter, includes, mem-includes, mem-filter, All,
}
use issue_orchestration.Dispatch.Task.{Task, writes}
use issue_orchestration.Dispatch.Lease.{Lease, overlap, is_empty}
use issue_orchestration.Dispatch.WorktreeKey.{worktree_key_matches}
use issue_orchestration.Dispatch.Conflict.{
  conflict_with, conflict_with_selected, held_keys, lease_conflict,
}

abbrev pub Disjoint : List String → List String → Type 0
Disjoint left right = (key : String) → Memᴰ key left → ¬ (Memᴰ key right)

-- Two tasks that may run side by side.
pub record Compatible (t u : Task) : Type 0 where
  pub keys_free : Disjoint t.conflict_keys u.conflict_keys
  pub worktree_free :
      writes t.execution_class ≡ true
      → writes u.execution_class ≡ true
      → t.issue_worktree_id ≢ u.issue_worktree_id
  pub resources_free : Disjoint t.exclusive_resource_keys u.exclusive_resource_keys

-- A lease that holds nothing of what a task needs.
pub record Leaves (t : Task) (l : Lease) : Type 0 where
  pub keys_left : Disjoint (t.conflict_keys ++ t.exclusive_resource_keys) l.keys
  pub worktree_left :
      writes t.execution_class ≡ true
      → (key : String) → Memᴰ key l.keys
      → worktree_key_matches t key ≡ false

not-mem_of_is_empty {ℓ} : {A : Type ℓ} {a : A} (xs : List A) → is_empty xs ≡ true → ¬ (Memᴰ a xs)
not-mem_of_is_empty [] h m = elim m [ ]
not-mem_of_is_empty (x ∷ xs) h m = cc

pub overlap-Disjoint :
    (left right : List String) → is_empty (overlap left right) ≡ true → Disjoint left right
unfolding overlap
overlap-Disjoint left right h key l r =
    not-mem_of_is_empty (filter (includes right) left) h
      (mem-filter (includes right) left l (mem-includes right r))

filter-none :
    (p : String → Bool) (xs : List String) (key : String)
    → is_empty (filter p xs) ≡ true
    → Memᴰ key xs
    → p key ≡ false
filter-none p xs key h m = elim (Bool-cases (p key)) [
  | inl e ↦ absurd (not-mem_of_is_empty (filter p xs) h (mem-filter p xs m e))
  | inr e ↦ e
]

pub conflict_with-Compatible : (t u : Task) → conflict_with t u ≡ none → Compatible t u
unfolding conflict_with
conflict_with-Compatible t u h = record {
  keys_free = overlap-Disjoint t.conflict_keys u.conflict_keys (ground arith);
  worktree_free = λ wt wu e. ground (arith, eq_iff t.issue_worktree_id u.issue_worktree_id);
  resources_free =
      overlap-Disjoint t.exclusive_resource_keys u.exclusive_resource_keys (ground arith);
}

pub conflict_with_selected-Compatible :
    (t : Task) (selected : List Task)
    → conflict_with_selected t selected ≡ none
    → All (Compatible t) selected
unfolding conflict_with_selected
conflict_with_selected-Compatible t [] h = tt
conflict_with_selected-Compatible t (u ∷ selected) h = (
  conflict_with-Compatible t u (ground arith),
  conflict_with_selected-Compatible t selected (ground arith),
)

held_keys-Leaves : (t : Task) (l : Lease) → is_empty (held_keys t l) ≡ true → Leaves t l
unfolding held_keys
held_keys-Leaves t l h = record {
  keys_left = overlap-Disjoint (t.conflict_keys ++ t.exclusive_resource_keys) l.keys (ground arith);
  worktree_left = λ w key m. filter-none (worktree_key_matches t) l.keys key (ground arith) m;
}

pub lease_conflict-Leaves :
    (t : Task) (leases : List Lease)
    → lease_conflict t leases ≡ none
    → All (λ l. (l.state == "active") ≡ true → Leaves t l) leases
unfolding lease_conflict
lease_conflict-Leaves t [] h = tt
lease_conflict-Leaves t (l ∷ leases) h =
    (λ active. held_keys-Leaves t l (ground arith), lease_conflict-Leaves t leases (ground arith))
