-- ===== src/SlicePlan/Order.antt =====
-- The dependencies of the slices.
use issue_orchestration.Prelude.{
  ℕ, suc, ◌<◌, String, true, false, Option, some, List, [], ◌∷◌, ◌==◌, ◌≡◌, sym, ap, subst, ◌∙◌,
  arith, not, ◌⊎◌, inl, inr, any, includes, is_distinct, lookup, Bool-cases, eq_iff, if◌then◌else◌,
  ok,
}
use issue_orchestration.SlicePlan.Plan.{Acceptance, SliceProposal, sorted}
use issue_orchestration.SlicePlan.Validation.{
  ValidationReceipt, keys, check_order, validate_dependencies, slice_ids, check_proposal,
  compile_slice_plan_validation,
}
use issue_orchestration.SlicePlan.Sorted.{same_value-eq, includes-sorted}

-- A slice depends on another, by its own dependencies or through them.
pub data Needs (graph : List (String × List String)) : String → String → Type 0 where
  direct :
      {a b : String} (dependencies : List String)
      → lookup graph a ≡ some dependencies
      → includes dependencies b ≡ true
      → Needs graph a b
  through :
      {a b : String} (dependencies : List String) (c : String)
      → lookup graph a ≡ some dependencies
      → includes dependencies c ≡ true
      → Needs graph c b
      → Needs graph a b

-- Where a slice stands in the order, counted from zero.
unfoldable pub index_in : List String → String → ℕ
index_in [] a = 0
index_in (x ∷ xs) a = let rest = index_in xs a in if x == a then 0 else suc rest

-- Both stand in the order, and b before a.
abbrev pub IsBefore : List String → String → String → Type 0
IsBefore ids b a =
    (includes ids a ≡ true) × ((includes ids b ≡ true) × (index_in ids b < index_in ids a))

any-not-includes :
    (seen ds : List String) (d : String)
    → any (λ x. not (includes seen x)) ds ≡ false
    → includes ds d ≡ true
    → includes seen d ≡ true
unfolding any includes
any-not-includes seen [] d h i = cc
any-not-includes seen (x ∷ ds) d h i = elim (Bool-cases (x == d)) [
  | inl e ↦ subst (λ y. includes seen y ≡ true) ((eq_iff x d).0 e) (ground (arith, h))
  | inr e ↦ any-not-includes seen ds d (ground (arith, h)) (ground (arith, i, e))
]

edge :
    (graph : List (String × List String)) (seen ids : List String) (a d : String) (ds : List String)
    → check_order graph seen ids ≡ ok tt
    → is_distinct ids ≡ true
    → includes ids a ≡ true
    → lookup graph a ≡ some ds
    → includes ds d ≡ true
    → (includes seen d ≡ true) ⊎ ((includes ids d ≡ true) × (index_in ids d < index_in ids a))
unfolding check_order includes is_distinct index_in
edge graph seen [] a d ds h u i e m = cc
edge graph seen (id ∷ ids) a d ds h u i e m = elim (Bool-cases (id == a)) [
  | inl here ↦
      let at : lookup graph id ≡ some ds =
        subst (λ x. lookup graph x ≡ some ds) (sym ((eq_iff id a).0 here)) e in
      inl (any-not-includes seen ds d (ground (arith, h, at)) m)
  | inr apart ↦
      elim (edge graph (id ∷ seen) ids a d ds (ground (arith, h)) (ground (arith, u))
        (ground (arith, i, apart)) e m) [
          | inl old ↦ elim (Bool-cases (id == d)) [
            | inl is ↦ inr (ground (arith, is), ground (arith, is, apart))
            | inr isnt ↦ inl (unfold includes in ground (arith, old, isnt))
          ]
          | inr (among, before) ↦ inr (ground (arith, among), ground (arith, before, apart))
        ]
]

lookup-keys :
    {A : Type 0} (entries : List (String × A)) (k : String) (a : A)
    → lookup entries k ≡ some a
    → includes (keys entries) k ≡ true
unfolding lookup keys includes
lookup-keys [] k a h = cc
lookup-keys ((j, b) ∷ entries) k a h = elim (Bool-cases (j == k)) [
  | inl e ↦ ground (arith, e)
  | inr e ↦ ground (arith, e, h, lookup-keys entries k a)
]

module _ (graph : List (String × List String)) (ids : List String)
    (ordered : check_order graph [] ids ≡ ok tt) (distinct : is_distinct ids ≡ true)
    (known : (a : String) → includes (keys graph) a ≡ includes ids a) where
  edge_before :
      (a d : String) (ds : List String)
      → lookup graph a ≡ some ds
      → includes ds d ≡ true
      → (includes ids a ≡ true) × ((includes ids d ≡ true) × (index_in ids d < index_in ids a))
  edge_before a d ds e m =
      let i : includes ids a ≡ true = sym (known a) ∙ lookup-keys graph a ds e in
      elim (edge graph [] ids a d ds ordered distinct i e m) [
        | inl none_yet ↦ absurd (unfold includes in ground (arith, none_yet))
        | inr b ↦ (i, b)
      ]

  chain_before :
      {a b : String}
      → Needs graph a b
      → (includes ids a ≡ true) × ((includes ids b ≡ true) × (index_in ids b < index_in ids a))
  chain_before (Needs.direct {a} {b} ds e m) = edge_before a b ds e m
  chain_before (Needs.through {a} {b} ds c e m n) =
      let first = edge_before a c ds e m in
      let rest = chain_before n in (first.0, (rest.1.0, omega (arith, first.1.1, rest.1.1)))

validated :
    (ids : List String) (graph : List (String × List String)) (a : String)
    → validate_dependencies ids graph ≡ ok tt
    → (check_order graph [] ids ≡ ok tt) × (includes (keys graph) a ≡ includes ids a)
unfolding validate_dependencies
validated ids graph a h =
    let e : sorted (keys graph) ≡ sorted ids =
      same_value-eq (sorted (keys graph)) (sorted ids) (ground (arith, h)) in
    (
      ground (arith, h),
      sym (includes-sorted a (keys graph)) ∙ (ap (λ xs. includes xs a) e ∙ includes-sorted a ids),
    )

-- In a proposal that compiles, a slice that depends on another, directly or through any others, and
-- the slice it depends on are both slices of the plan, and the second stands before the first. So no
-- slice depends on itself.
pub compiled-ordered :
    (contract_digest : Acceptance → String) (proposal_digest : SliceProposal → String)
    (receipt_digest : ValidationReceipt → String)
    (validate_route_bound_actor : SliceProposal → Option String) (acceptance : Acceptance)
    (p : SliceProposal) (receipt : ValidationReceipt × String) (a b : String)
    → compile_slice_plan_validation contract_digest proposal_digest receipt_digest
        validate_route_bound_actor acceptance p
      ≡ ok receipt
    → Needs p.slice_dependency_graph a b
    → IsBefore receipt.0.ordered_slice_ids b a
unfolding compile_slice_plan_validation check_proposal
compiled-ordered contract_digest proposal_digest receipt_digest validate_route_bound_actor
      acceptance p receipt a b h n =
    let e : receipt.0.ordered_slice_ids ≡ slice_ids p.ordered_slices = ground (arith, h) in
    let valid : validate_dependencies (slice_ids p.ordered_slices) p.slice_dependency_graph
        ≡ ok tt =
      ground (arith, h) in
    let distinct : is_distinct (slice_ids p.ordered_slices) ≡ true = ground (arith, h) in
    subst (λ ids. IsBefore ids b a) (sym e)
      (chain_before p.slice_dependency_graph (slice_ids p.ordered_slices)
        (validated (slice_ids p.ordered_slices) p.slice_dependency_graph "" valid).0 distinct
        (λ x. (validated (slice_ids p.ordered_slices) p.slice_dependency_graph x valid).1) n)
