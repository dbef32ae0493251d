-- ===== src/Dispatch/WorktreeKey.antt =====
-- The worktree keys of `leaseConflict`: the key that the issue of a task derives, and the match of
-- a lease's key with the task's worktree. Texts are read as code points, and `toLowerCase` as what it
-- does to the ASCII letters.
use Prim.Native.Nat.{◌/◌, ◌%◌}
use issue_orchestration.Prelude.{
  ℕ, zero, suc, ◌+◌, String, Bool, true, false, Option, none, some, List, [], ◌∷◌, ◌++◌, not, ◌&&◌,
  ◌||◌, any, every, split_last, is_digit, filter, map, leb, eqb, codes, starts_with, has_part,
  same_codes, if◌then◌else◌,
}
use issue_orchestration.Dispatch.Task.{Task}

-- `.` of a regular expression matches no line terminator.
abbrev ends_line : ℕ → Bool
ends_line c = eqb c 10 || eqb c 13 || eqb c 0x2028 || eqb c 0x2029

-- [1-9]\d*
unfoldable pub is_issue_number : List ℕ → Bool
unfolding every
is_issue_number [] = false
is_issue_number (c ∷ cs) = is_digit c && not (eqb c b'0') && every is_digit cs

abbrev none_left : List ℕ → Bool
none_left [] = true
none_left (c ∷ cs) = false

-- The groups of /^.+\/([^/]+)#([1-9]\d*)$/u in an issue's id.
unfoldable pub issue_groups : List ℕ → Option (List ℕ × List ℕ)
unfolding split_last is_issue_number any
issue_groups id = elim (split_last b'/' id) [
  | none ↦ none
  | some (owner, rest) ↦ elim (split_last b'#' rest) [
    | none ↦ none
    | some (name, number) ↦
        if none_left owner || any ends_line owner || none_left name || not (is_issue_number number)
        then none
        else some (name, number)
  ]
]

-- The digits of a number, the last first; `fuel` above the number is enough.
unfoldable pub digits_from : ℕ → ℕ → List ℕ
digits_from zero n = []
digits_from (suc fuel) n =
    let rest = digits_from fuel (n / 10) in
    if leb n 9 then (b'0' + n) ∷ [] else rest ++ (b'0' + n % 10) ∷ []

unfoldable pub decimal : ℕ → List ℕ
unfolding digits_from
decimal n = digits_from (suc n) n

-- derivedWorktreeKey
unfoldable pub derived_worktree_key : Task → List ℕ
unfolding issue_groups decimal codes
derived_worktree_key t =
    let key = λ (name number : List ℕ).
      codes "worktree:" ++ (name ++ (codes ":issue-" ++ (number ++ codes ":write"))) in
    elim (issue_groups (codes t.issue_id)) [
      | some (name, number) ↦ key name number
      | none ↦ key (codes t.repository) (decimal t.issue_number)
    ]

abbrev lower : ℕ → ℕ
lower c = if leb b'A' c && leb c b'Z' then c + 32 else c

-- [a-z0-9], what replaceAll(/[^a-z0-9]+/gu, '') keeps
abbrev is_alphanumeric : ℕ → Bool
is_alphanumeric c = (leb b'a' c && leb c b'z') || is_digit c

-- value.toLowerCase().replaceAll(/[^a-z0-9]+/gu, '')
unfoldable pub normalized : List ℕ → List ℕ
unfolding filter
normalized s = filter is_alphanumeric (map lower s)

-- The test of the second search of `leaseConflict`, on a key of a lease.
unfoldable pub worktree_key_matches : Task → String → Bool
unfolding derived_worktree_key normalized starts_with has_part same_codes
worktree_key_matches t key =
    same_codes (codes key) (derived_worktree_key t)
    || (starts_with (codes key) (codes "worktree:")
        && has_part (normalized (codes key)) (normalized (codes t.issue_worktree_id)))
