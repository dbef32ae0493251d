-- ===== src/Group/Blocking.antt =====
-- The status of a group against a description of it row by row.
use issue_orchestration.Prelude.{
  String, Bool, true, false, List, [], ◌∷◌, ◌++◌, ◌==◌, ◌≡◌, refl, ap, sym, ◌∙◌, arith, ◌&&◌, ◌||◌,
  any, every, filter, length, ltb, includes, is_distinct, lookup, eq_iff, eq_refl, Bool-cases,
  Option-cases, inl, inr, subst, ok, >>=-eq-ok,
}
use issue_orchestration.Group.Session.{Session, GroupMember, is_green, require_session}
use issue_orchestration.Group.Operations.{is_pending}
use issue_orchestration.Group.Status.{
  Status, rows_in, rows_after, shares_key, add, block_rows, block_all, pending_rows, status_of_rows,
  project_group_status,
}

-- The member of a row is j, and shares one of the keys.
abbrev pub is_sharing : List String → String → String × GroupMember → Bool
is_sharing keys j row = row.0 == j && shares_key keys row.1

-- A row stands behind one that is pending and shares a key with it.
unfoldable pub is_blocked : List (String × GroupMember) → String → Bool
is_blocked [] j = false
is_blocked ((id, m) ∷ rows) j =
    (is_pending m.status && any (is_sharing m.conflict_keys j) rows) || is_blocked rows j

includes-append :
    (xs ys : List String) (j : String) → includes (xs ++ ys) j ≡ (includes xs j || includes ys j)
unfolding includes
includes-append [] ys j = refl
includes-append (x ∷ xs) ys j = ground (arith, includes-append xs ys j)

includes-add :
    (id : String) (b : List String) (j : String) → includes (add id b) j ≡ (includes b j || id == j)
unfolding add
includes-add id b j = elim (Bool-cases (includes b id)) [
  | inl e ↦ elim (Bool-cases (id == j)) [
    | inl t ↦
        let i : includes b j ≡ true = subst (λ k. includes b k ≡ true) ((eq_iff id j).0 t) e in
        ground (arith, e, i)
    | inr t ↦ ground (arith, e, t)
  ]
  | inr e ↦ unfold includes in ground (arith, e, includes-append b (id ∷ []) j)
]

includes-block_rows :
    (keys : List String) (rows : List (String × GroupMember)) (b : List String) (j : String)
    → includes (block_rows keys rows b) j ≡ (includes b j || any (is_sharing keys j) rows)
unfolding block_rows any
includes-block_rows keys [] b j = ground arith
includes-block_rows keys ((id, m) ∷ rows) b j = elim (Bool-cases (shares_key keys m)) [
  | inl e ↦ ground (arith, e, includes-block_rows keys rows (add id b) j, includes-add id b j)
  | inr e ↦ ground (arith, e, includes-block_rows keys rows b j)
]

abbrev is_sharing_with : List (String × GroupMember) → String → String × GroupMember → Bool
is_sharing_with rows j row = any (is_sharing row.1.conflict_keys j) (rows_after rows row.0)

includes-block_all :
    (rows pending : List (String × GroupMember)) (b : List String) (j : String)
    → includes (block_all rows pending b) j ≡ (includes b j || any (is_sharing_with rows j) pending)
unfolding block_all any
includes-block_all rows [] b j = ground arith
includes-block_all rows ((id, m) ∷ pending) b j = ground (
  arith,
  includes-block_all rows pending (block_rows m.conflict_keys (rows_after rows id) b) j,
  includes-block_rows m.conflict_keys (rows_after rows id) b j,
)

abbrev ids : List (String × GroupMember) → List String
ids [] = []
ids ((id, m) ∷ rows) = id ∷ ids rows

-- A row in front, of another member than the rest.
in_front :
    (id : String) (m : GroupMember) (rows qs : List (String × GroupMember)) (j : String)
    → includes (ids qs) id ≡ false
    → any (is_sharing_with ((id, m) ∷ rows) j) (pending_rows qs)
      ≡ any (is_sharing_with rows j) (pending_rows qs)
unfolding pending_rows filter any includes rows_after
in_front id m rows [] j h = refl
in_front id m rows ((k, n) ∷ qs) j h = elim (Bool-cases (is_pending n.status)) [
  | inl e ↦ ground (arith, e, in_front id m rows qs j (ground (arith, h)), eq_iff id k, eq_refl k)
  | inr e ↦ ground (arith, e, in_front id m rows qs j (ground (arith, h)))
]

any_pending :
    (rows : List (String × GroupMember)) (j : String)
    → is_distinct (ids rows) ≡ true
    → any (is_sharing_with rows j) (pending_rows rows) ≡ is_blocked rows j
unfolding is_blocked pending_rows filter any is_distinct
any_pending [] j d = refl
any_pending ((id, m) ∷ rows) j d =
    let front = in_front id m rows rows j (ground (arith, d)) in
    let rest = any_pending rows j (ground (arith, d)) in
    let behind : rows_after ((id, m) ∷ rows) id ≡ rows =
      unfold rows_after in rw (eq_refl id) refl in
    elim (Bool-cases (is_pending m.status)) [
      | inl e ↦ ground (arith, e, front, rest, behind)
      | inr e ↦ ground (arith, e, front, rest)
    ]

pending-not_green :
    (rows : List (String × GroupMember))
    → ltb 0 (length (pending_rows rows)) ≡ true
    → every (λ row. is_green row.1.status) rows ≡ false
unfolding pending_rows filter every
pending-not_green [] h = cc
pending-not_green ((id, m) ∷ rows) h = elim (Bool-cases (is_pending m.status)) [
  | inl e ↦ ground (arith, e)
  | inr e ↦ ground (arith, e, h, pending-not_green rows)
]

rows_in-ids :
    (entries : List (String × GroupMember)) (order : List String)
    (rows : List (String × GroupMember))
    → rows_in entries order ≡ ok rows
    → ids rows ≡ order
unfolding rows_in
rows_in-ids entries [] rows h = ground arith
rows_in-ids entries (id ∷ order) rows h = elim (Option-cases (lookup entries id)) [
  | inl e ↦ absurd (ground (arith, e))
  | inr (m, e) ↦
      let (rest, more, last) =
        >>=-eq-ok (rows_in entries order) (λ r. ok ((id, m) ∷ r)) {b = rows} (ground (arith, e)) in
      ground (arith, e, last, rows_in-ids entries order rest more)
]

no_pending :
    (rows : List (String × GroupMember)) (j : String)
    → is_distinct (ids rows) ≡ true
    → ltb 0 (length (pending_rows rows)) ≡ false
    → is_blocked rows j ≡ false
unfolding any
no_pending rows j d h =
    let e : pending_rows rows ≡ [] = ground (arith, h) in
    sym (any_pending rows j d) ∙ ap (any (is_sharing_with rows j)) e

status-exact :
    (rows : List (String × GroupMember)) (j : String)
    → is_distinct (ids rows) ≡ true
    → ((status_of_rows rows).green ≡ every (λ row. is_green row.1.status) rows)
      × (includes (status_of_rows rows).blocked_members j ≡ is_blocked rows j)
unfolding status_of_rows includes
status-exact rows j d = elim (Bool-cases (ltb 0 (length (pending_rows rows)))) [
  | inl e ↦ (
    ground (arith, e, pending-not_green rows e),
    ground (arith, e, includes-block_all rows (pending_rows rows) [] j, any_pending rows j d),
  )
  | inr e ↦ (ground (arith, e), ground (arith, e, no_pending rows j d e))
]

-- The status that is projected from a session whose members are each listed once: it is green where
-- every member is green, and a member is blocked exactly where a member before it waits for a
-- human decision and shares a conflict key with it.
pub project_group_status-exact :
    (s : Session) (status : Status) (j : String)
    → is_distinct s.member_order ≡ true
    → project_group_status s ≡ ok status
    → (rows : List (String × GroupMember)) × ((rows_in s.members s.member_order ≡ ok rows)
        × ((status.green ≡ every (λ row. is_green row.1.status) rows)
            × (includes status.blocked_members j ≡ is_blocked rows j)))
unfolding project_group_status
project_group_status-exact s status j d h =
    let (u, got, rest) = >>=-eq-ok (require_session s) _ h in
    let (rows, at, last) = >>=-eq-ok (rows_in s.members s.member_order) _ rest in
    let e : status ≡ status_of_rows rows = ground (arith, last) in
    let exact =
      status-exact rows j (
        subst (λ o. is_distinct o ≡ true) (sym (rows_in-ids s.members s.member_order rows at)) d) in
    (
      rows,
      (at, (ap (λ x. x.green) e ∙ exact.0, ap (λ x. includes x.blocked_members j) e ∙ exact.1)),
    )
