-- ===== src/Resources/Valid.antt =====
-- What the validation of a registry reads, and the changes of resources that it does not notice.
use issue_orchestration.Prelude.{
  String, true, false, Option, some, none, List, [], ◌∷◌, ◌==◌, ◌≡◌, refl, ap, ap₂, map, arith, ok,
  is_printed, Bool-cases, inl, inr, includes, same,
}
use issue_orchestration.Resources.Registry.{
  WriteLease, Resource, Registry, validate_registry, validate_resources, foreign_resource,
  stateless, bad_write_lease,
}
use issue_orchestration.Resources.Event.{
  with_lease_state, update_first, with_state, replaced, member_cleaned, group_cleaned,
}

-- A change of a resource that keeps its identity and owner, and gives it a state.
pub record Keeps (run attempt : String) (change : Resource → Resource) : Type 0 where
  pub owner :
      (x : Resource) → foreign_resource run attempt (change x) ≡ foreign_resource run attempt x
  pub state : (x : Resource) → stateless x ≡ false → stateless (change x) ≡ false
  pub id : (x : Resource) → (change x).resource_id ≡ x.resource_id

module _ (run attempt : String) (change : Resource → Resource) (k : Keeps run attempt change) where
  pub validate-map :
      (xs : List Resource)
      → validate_resources run attempt xs ≡ ok tt
      → validate_resources run attempt (map change xs) ≡ ok tt
  unfolding validate_resources
  validate-map [] h = refl
  validate-map (x ∷ xs) h = ground (arith, k.owner x, k.state x, validate-map xs)

  pub ids-map :
      (xs : List Resource)
      → map (λ (x : Resource). x.resource_id) (map change xs)
        ≡ map (λ (x : Resource). x.resource_id) xs
  ids-map [] = refl
  ids-map (x ∷ xs) = ap₂ (λ i is. i ∷ is) (k.id x) (ids-map xs)

  pub validate-update_first :
      (id : String) (xs : List Resource)
      → validate_resources run attempt xs ≡ ok tt
      → validate_resources run attempt (update_first id change xs) ≡ ok tt
  unfolding validate_resources update_first
  validate-update_first id [] h = refl
  validate-update_first id (x ∷ xs) h =
      ground (arith, k.owner x, k.state x, validate-update_first id xs)

  pub ids-update_first :
      (id : String) (xs : List Resource)
      → map (λ (x : Resource). x.resource_id) (update_first id change xs)
        ≡ map (λ (x : Resource). x.resource_id) xs
  unfolding update_first
  ids-update_first id [] = refl
  ids-update_first id (x ∷ xs) = elim (Bool-cases (x.resource_id == id)) [
    | inl e ↦ rw e (ap (λ i. i ∷ map (λ (y : Resource). y.resource_id) xs) (k.id x))
    | inr e ↦ rw e (ap (λ is. x.resource_id ∷ is) (ids-update_first id xs))
  ]

abbrev pub ids : List Resource → List String
ids = map (λ (x : Resource). x.resource_id)

-- What the validation reads beside the owner: the write lease and the resources may change.
pub validate-record :
    (r : Registry) (w : Option WriteLease) (xs : List Resource)
    → validate_registry r ≡ ok tt
    → bad_write_lease r.stage_attempt_id w ≡ false
    → ids xs ≡ ids r.resources
    → validate_resources r.run_id r.stage_attempt_id xs ≡ ok tt
    → validate_registry (record r { write_lease = w; resources = xs }) ≡ ok tt
unfolding validate_registry
validate-record r w xs h fine same_ids valid = rw same_ids (ground (arith, valid))

-- The parts of a registry that is valid.
pub record Parts (r : Registry) : Type 0 where
  pub lease : bad_write_lease r.stage_attempt_id r.write_lease ≡ false
  pub resources : validate_resources r.run_id r.stage_attempt_id r.resources ≡ ok tt

pub validate-Parts : (r : Registry) → validate_registry r ≡ ok tt → Parts r
unfolding validate_registry
validate-Parts r h = record { lease = ground arith; resources = ground arith }

pub lease_state :
    (attempt s : String) (w : Option WriteLease)
    → includes ("active" ∷ "revoked" ∷ "released" ∷ []) s ≡ true
    → bad_write_lease attempt w ≡ false
    → bad_write_lease attempt (with_lease_state s w) ≡ false
unfolding bad_write_lease
lease_state attempt s none known h = refl
lease_state attempt s (some w) known h = ground (arith, known)

module _ (run attempt : String) where
  pub with_state-Keeps : (s : String) → is_printed s ≡ true → Keeps run attempt (with_state s)
  unfolding foreign_resource stateless
  with_state-Keeps s h = record {
    owner = λ x. refl;
    state = λ x e. ground (arith, h);
    id = λ x. refl;
  }

  pub replaced-Keeps : (ds ps : List String) → Keeps run attempt (replaced ds ps)
  unfolding foreign_resource stateless is_printed
  replaced-Keeps ds ps = record { owner = λ x. refl; state = λ x e. refl; id = λ x. refl }

  pub member-Keeps : (m : Option String) → Keeps run attempt (member_cleaned m)
  unfolding foreign_resource
  member-Keeps m = record {
    owner = λ x. elim (Bool-cases (x.owner_class == "group-owned")) [
      | inl e ↦ rw e
      | inr e ↦ rw e (elim (Bool-cases (same x.member_id m)) [ inl f ↦ rw f | inr f ↦ rw f ])
    ];
    state = λ x h. elim (Bool-cases (x.owner_class == "group-owned")) [
      | inl e ↦ rw e (unfold stateless is_printed in refl)
      | inr e ↦ rw e (elim (Bool-cases (same x.member_id m)) [
        | inl f ↦ rw f (unfold stateless is_printed in refl)
        | inr f ↦ rw f h
      ])
    ];
    id = λ x. ground arith;
  }

  pub group-Keeps : (ids : List String) → Keeps run attempt (group_cleaned ids)
  unfolding foreign_resource
  group-Keeps ids = record {
    owner = λ x. elim (Bool-cases (x.owner_class == "externally-owned")) [
      | inl e ↦ rw e
      | inr e ↦
          rw e (elim (Bool-cases (includes ids x.resource_id)) [ inl f ↦ rw f | inr f ↦ rw f ])
    ];
    state = λ x h. elim (Bool-cases (x.owner_class == "externally-owned")) [
      | inl e ↦ rw e h
      | inr e ↦ rw e (elim (Bool-cases (includes ids x.resource_id)) [
        | inl f ↦ rw f (unfold stateless is_printed in refl)
        | inr f ↦ rw f (unfold stateless is_printed in refl)
      ])
    ];
    id = λ x. ground arith;
  }
