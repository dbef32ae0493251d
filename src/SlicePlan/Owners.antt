-- ===== src/SlicePlan/Owners.antt =====
-- Who owns what in a plan that compiles.
use issue_orchestration.Prelude.{
  String, Bool, true, false, Option, some, none, List, [], ◌∷◌, ◌++◌, ◌==◌, ◌≡◌, refl, sym, ap,
  subst, ◌∙◌, arith, inl, inr, includes, Memᴰ, lookup, is_some, Bool-cases, eq_iff, ok, >>=-eq-ok,
  reject-eq-ok,
}
use issue_orchestration.SlicePlan.Plan.{
  SliceCode, Acceptance, Slice, SliceProposal, sorted, unique_sorted,
  slice_proposal_acceptance_exactness, slice_proposal_acceptance_owner,
  slice_proposal_command_exactness, slice_proposal_command_owner, slice_proposal_evidence_exactness,
  slice_proposal_evidence_owner,
}
use issue_orchestration.SlicePlan.Validation.{
  ValidationReceipt, keys, own_items, own_slices, owned_map, check_proposal,
  compile_slice_plan_validation,
}
use issue_orchestration.SlicePlan.Sorted.{same_value-eq, includes-sorted, includes-unique_sorted}

-- The owner of an item in the map: what the map has before, and then the slice.
abbrev or_owner : Option String → Bool → String → Option String
or_owner (some owner) among id = some owner
or_owner none true id = some id
or_owner none false id = none

lookup-end :
    (map : List (String × String)) (item id x : String)
    → lookup (map ++ (item, id) ∷ []) x ≡ or_owner (lookup map x) (item == x) id
unfolding lookup
lookup-end [] item id x = ground arith
lookup-end ((k, a) ∷ map) item id x = ground (arith, lookup-end map item id x)

-- What a slice adds to the map.
items-owned :
    (code : SliceCode) (id : String) (items : List String) (map next : List (String × String))
    (x : String)
    → own_items code id items map ≡ ok next
    → (lookup next x ≡ or_owner (lookup map x) (includes items x) id)
      × (includes items x ≡ true → lookup map x ≡ none)
unfolding own_items includes
items-owned code id [] map next x h = (ground (arith, h), λ i. cc)
items-owned code id (item ∷ items) map next x h =
    let (fresh, more) = reject-eq-ok (is_some (lookup map item)) code _ h in
    let rest = items-owned code id items (map ++ (item, id) ∷ []) next x more in
    let end = lookup-end map item id x in
    let free : (item == x) ≡ true → lookup map x ≡ none =
      λ e. subst (λ y. lookup map y ≡ none) ((eq_iff item x).0 e) (ground (arith, fresh)) in
    elim (Bool-cases (item == x)) [
      | inl e ↦ (ground (arith, e, free e, end, rest.0), λ i. free e)
      | inr e ↦ (
        ground (arith, e, end, rest.0),
        λ i. ground (arith, e, end, rest.1 (ground (arith, i, e))),
      )
    ]

module _ (code : SliceCode) (field : Slice → List String) (x : String) where
  kept :
      (slices : List Slice) (map next : List (String × String)) (owner : String)
      → own_slices code field slices map ≡ ok next
      → lookup map x ≡ some owner
      → lookup next x ≡ some owner
  unfolding own_slices
  kept [] map next owner h e = ground (arith, h, e)
  kept (slice ∷ slices) map next owner h e =
      let (mid, first, more) = >>=-eq-ok (own_items code slice.slice_id (field slice) map) _ h in
      let owned = items-owned code slice.slice_id (field slice) map mid x first in
      kept slices mid next owner more (ground (arith, e, owned.0))

  -- A slice that has the item owns it, and no slice before it has.
  owned :
      (slices : List Slice) (map next : List (String × String)) (slice : Slice)
      → own_slices code field slices map ≡ ok next
      → Memᴰ slice slices
      → includes (field slice) x ≡ true
      → (lookup next x ≡ some slice.slice_id) × (lookup map x ≡ none)
  unfolding own_slices
  owned [] map next slice h m i = elim m [ ]
  owned (first ∷ slices) map next slice h m i =
      let (mid, here, more) = >>=-eq-ok (own_items code first.slice_id (field first) map) _ h in
      let added = items-owned code first.slice_id (field first) map mid x here in
      elim m [
        | Memᴰ.head e ↦
            let j : includes (field first) x ≡ true =
              subst (λ s. includes (field s) x ≡ true) e i in
            let at : lookup mid x ≡ some first.slice_id = ground (arith, j, added.1 j, added.0) in
            (
              kept slices mid next first.slice_id more at ∙ ap (λ s. some s.slice_id) (sym e),
              added.1 j,
            )
        | Memᴰ.tail n ↦
            let later = owned slices mid next slice more n i in
            (later.0, ground (arith, later.1, added.0))
      ]

  -- What the map gains is owned by a slice that has it.
  gained :
      (slices : List Slice) (map next : List (String × String))
      → own_slices code field slices map ≡ ok next
      → lookup map x ≡ none
      → is_some (lookup next x) ≡ true
      → (slice : Slice) × (Memᴰ slice slices × (includes (field slice) x ≡ true))
  unfolding own_slices
  gained [] map next h e g = absurd (ground (arith, h, e, g))
  gained (slice ∷ slices) map next h e g =
      let (mid, first, more) = >>=-eq-ok (own_items code slice.slice_id (field slice) map) _ h in
      let added = items-owned code slice.slice_id (field slice) map mid x first in
      elim (Bool-cases (includes (field slice) x)) [
        | inl i ↦ (slice, (Memᴰ.head refl, i))
        | inr n ↦
            let (found, (m, i)) = gained slices mid next more (ground (arith, added.0, e, n)) g in
            (found, (Memᴰ.tail m, i))
      ]

includes-keys :
    (map : List (String × String)) (x : String) → includes (keys map) x ≡ is_some (lookup map x)
unfolding lookup keys includes
includes-keys [] x = refl
includes-keys ((k, a) ∷ map) x = ground (arith, includes-keys map x)

-- The items that are expected are those that some slice has, and the map gives each the slice that
-- has it: two slices that have one item have one identifier.
pub record IsExact (slices : List Slice) (field : Slice → List String) (expected : List String)
    (map : List (String × String)) : Type 0 where
  pub owner :
      (slice : Slice) (x : String)
      → Memᴰ slice slices
      → includes (field slice) x ≡ true
      → (lookup map x ≡ some slice.slice_id) × (includes expected x ≡ true)
  pub covered :
      (x : String)
      → includes expected x ≡ true
      → (slice : Slice) × (Memᴰ slice slices × (includes (field slice) x ≡ true))

owned_map-IsExact :
    (slices : List Slice) (field : Slice → List String) (expected : List String)
    (missing duplicate : SliceCode) (map : List (String × String))
    → owned_map slices field expected missing duplicate ≡ ok map
    → IsExact slices field expected map
unfolding owned_map
owned_map-IsExact slices field expected missing duplicate map h =
    let (next, all, rest) = >>=-eq-ok (own_slices duplicate field slices []) _ h in
    let is : map ≡ next = ground (arith, rest) in
    let all_of : own_slices duplicate field slices [] ≡ ok map = all ∙ ap ok (sym is) in
    let e : sorted (keys map) ≡ unique_sorted expected =
      same_value-eq (sorted (keys map)) (unique_sorted expected) (ground (arith, rest, is)) in
    let known : (x : String) → includes expected x ≡ is_some (lookup map x) = λ x.
      sym (includes-unique_sorted x expected)
      ∙ (ap (λ xs. includes xs x) (sym e) ∙ (includes-sorted x (keys map) ∙ includes-keys map x)) in
    record {
      owner = λ slice x m i.
          let o = owned duplicate field x slices [] map slice all_of m i in
          (o.0, ground (arith, known x, o.0));
      covered = λ x i.
          gained duplicate field x slices [] map all_of (unfold lookup in refl)
            (ground (arith, known x, i));
    }

-- In a proposal that compiles, every executable acceptance item, required command and required
-- evidence is had by one slice, which the owner map of the receipt names, and no slice has another.
pub compiled-IsExact :
    (contract_digest : Acceptance → String) (proposal_digest : SliceProposal → String)
    (receipt_digest : ValidationReceipt → String)
    (validate_route_bound_actor : SliceProposal → Option String) (acceptance : Acceptance)
    (p : SliceProposal) (receipt : ValidationReceipt × String)
    → compile_slice_plan_validation contract_digest proposal_digest receipt_digest
        validate_route_bound_actor acceptance p
      ≡ ok receipt
    → IsExact p.ordered_slices
        (λ slice. slice.acceptance_ids)
        acceptance.executable_acceptance_ids
        receipt.0.acceptance_owner_map
      × (IsExact p.ordered_slices
            (λ slice. slice.required_commands)
            p.required_commands
            receipt.0.command_owner_map
          × IsExact p.ordered_slices
              (λ slice. slice.required_evidence)
              p.required_evidence
              receipt.0.evidence_owner_map)
unfolding compile_slice_plan_validation
compiled-IsExact contract_digest proposal_digest receipt_digest actor acceptance p receipt h =
    let (u, checked, h1) =
      >>=-eq-ok (check_proposal contract_digest proposal_digest receipt_digest actor acceptance p) _
        h in
    let (acceptances, a, h2) =
      >>=-eq-ok
        (owned_map p.ordered_slices (λ slice. slice.acceptance_ids)
          acceptance.executable_acceptance_ids slice_proposal_acceptance_exactness
          slice_proposal_acceptance_owner)
        _ h1 in
    let (commands, c, h3) =
      >>=-eq-ok
        (owned_map p.ordered_slices (λ slice. slice.required_commands) p.required_commands
          slice_proposal_command_exactness slice_proposal_command_owner)
        _ h2 in
    let (evidence, d, h4) =
      >>=-eq-ok
        (owned_map p.ordered_slices (λ slice. slice.required_evidence) p.required_evidence
          slice_proposal_evidence_exactness slice_proposal_evidence_owner)
        _ h3 in
    let e1 : receipt.0.acceptance_owner_map ≡ acceptances = ground (arith, h4) in
    let e2 : receipt.0.command_owner_map ≡ commands = ground (arith, h4) in
    let e3 : receipt.0.evidence_owner_map ≡ evidence = ground (arith, h4) in
    (
      subst
          (IsExact p.ordered_slices (λ slice. slice.acceptance_ids)
            acceptance.executable_acceptance_ids)
          (sym e1) (owned_map-IsExact _ _ _ _ _ _ a),
      (
        subst (IsExact p.ordered_slices (λ slice. slice.required_commands) p.required_commands)
            (sym e2) (owned_map-IsExact _ _ _ _ _ _ c),
        subst (IsExact p.ordered_slices (λ slice. slice.required_evidence) p.required_evidence)
            (sym e3) (owned_map-IsExact _ _ _ _ _ _ d),
      ),
    )
