-- ===== src/SlicePlan/Validation.antt =====
-- `validateDependencies`, `ownedMap` and `compileSlicePlanValidation`. The digests of a contract, of
-- a proposal and of a receipt, each without its own digest, are parameters, and so is
-- `validateRouteBoundActor` of execution-route-compiler.mjs, which gives the code that it throws.
use issue_orchestration.Prelude.{
  String, Bool, true, false, Option, some, none, List, [], ◌∷◌, ◌++◌, ◌==◌, not, ◌||◌, any, length,
  ltb, includes, is_distinct, is_some, lookup, Result, ok, err, reject, ◌>>=◌, ◌>>◌,
}
use issue_orchestration.SlicePlan.Plan.{
  SliceCode, Acceptance, Slice, SliceProposal, sorted, unique_sorted, same_value, assert_text,
  assert_array, check_slices, slice_proposal_acceptance_contract, slice_proposal_dependency_graph,
  slice_proposal_dependency_cycle, slice_proposal_authority, slice_proposal_objective,
  slice_proposal_paths, slice_proposal_slices, slice_proposal_slice_identity,
  slice_proposal_acceptance_exactness, slice_proposal_acceptance_owner,
  slice_proposal_command_exactness, slice_proposal_command_owner, slice_proposal_evidence_exactness,
  slice_proposal_evidence_owner, slice_proposal_digest, of_actor,
}

-- Object.keys(entries)
unfoldable pub keys {ℓ} : {A : Type ℓ} → List (String × A) → List String
keys [] = []
keys ((k, a) ∷ entries) = k ∷ keys entries

abbrev bad_dependencies : List String → Option (List String) → Bool
bad_dependencies seen none = true
bad_dependencies seen (some dependencies) =
    any (λ d. not (includes seen d)) dependencies || not (is_distinct dependencies)

-- The loop of `validateDependencies`.
unfoldable pub check_order :
    List (String × List String) → List String → List String → Result SliceCode (Unit {0})
check_order graph seen [] = ok tt
check_order graph seen (id ∷ ids) = do
  reject (bad_dependencies seen (lookup graph id)) slice_proposal_dependency_cycle
  check_order graph (id ∷ seen) ids

-- validateDependencies
unfoldable pub validate_dependencies :
    List String → List (String × List String) → Result SliceCode (Unit {0})
validate_dependencies ids graph = do
  reject (not (same_value (sorted (keys graph)) (sorted ids))) slice_proposal_dependency_graph
  check_order graph [] ids

-- The inner loop of `ownedMap`. The item `__proto__`, which a plain object does not store as a key,
-- is stored here like any other.
unfoldable pub own_items :
    SliceCode
    → String
    → List String
    → List (String × String)
    → Result SliceCode (List (String × String))
own_items duplicate id [] result = ok result
own_items duplicate id (item ∷ items) result = do
  reject (is_some (lookup result item)) duplicate
  own_items duplicate id items (result ++ (item, id) ∷ [])

unfoldable pub own_slices :
    SliceCode
    → (Slice → List String)
    → List Slice
    → List (String × String)
    → Result SliceCode (List (String × String))
own_slices duplicate field [] result = ok result
own_slices duplicate field (slice ∷ slices) result = do
  next ← own_items duplicate slice.slice_id (field slice) result
  own_slices duplicate field slices next

-- ownedMap
unfoldable pub owned_map :
    List Slice
    → (Slice → List String)
    → List String
    → SliceCode
    → SliceCode
    → Result SliceCode (List (String × String))
owned_map slices field expected missing duplicate = do
  result ← own_slices duplicate field slices []
  reject (not (same_value (sorted (keys result)) (unique_sorted expected))) missing
  ok result

pub record ValidationReceipt : Type 0 where
  pub schema : String
  pub status : String
  pub proposal_digest : String
  pub acceptance_contract_digest : String
  pub proposal_authored_by : String
  pub validated_by : String
  pub generated_by_validator : Bool
  pub acceptance_owner_map : List (String × String)
  pub command_owner_map : List (String × String)
  pub evidence_owner_map : List (String × String)
  pub ordered_slice_ids : List String

abbrev is_false : Option Bool → Bool
is_false none = false
is_false (some value) = not value

abbrev of_verdict : Option String → Result SliceCode (Unit {0})
of_verdict none = ok tt
of_verdict (some code) = err (of_actor code)

unfoldable pub slice_ids : List Slice → List String
slice_ids [] = []
slice_ids (slice ∷ slices) = slice.slice_id ∷ slice_ids slices

module _ (contract_digest : Acceptance → String) (proposal_digest : SliceProposal → String)
    (receipt_digest : ValidationReceipt → String)
    (validate_route_bound_actor : SliceProposal → Option String) where
  -- validateAcceptance
  unfoldable pub validate_acceptance : Acceptance → Result SliceCode (Unit {0})
  validate_acceptance acceptance =
      reject
        (not (acceptance.schema == "issue-orchestration.issue-acceptance-contract.v1")
          || not (acceptance.status == "frozen")
          || not (acceptance.contract_digest == contract_digest acceptance))
        slice_proposal_acceptance_contract

  -- compileSlicePlanValidation, up to the owner maps
  unfoldable pub check_proposal : Acceptance → SliceProposal → Result SliceCode (Unit {0})
  unfolding assert_text assert_array
  check_proposal acceptance p = do
    validate_acceptance acceptance
    reject
        (not (p.schema == "issue-orchestration.slice-plan-proposal.v1")
          || not (p.proposal_authored_by == "test-owner:test-contract-planning")
          || not (is_false p.root_authored)
          || not (p.acceptance_contract_digest == acceptance.contract_digest))
        slice_proposal_authority
    of_verdict (validate_route_bound_actor p)
    assert_text p.objective slice_proposal_objective
    assert_array p.allowed_paths slice_proposal_paths
    reject (ltb (length p.ordered_slices) 1) slice_proposal_slices
    reject
        (any (λ id. id == "") (slice_ids p.ordered_slices)
          || not (is_distinct (slice_ids p.ordered_slices)))
        slice_proposal_slice_identity
    validate_dependencies (slice_ids p.ordered_slices) p.slice_dependency_graph
    check_slices acceptance p p.ordered_slices

  -- compileSlicePlanValidation, whose receipt comes with its digest
  unfoldable pub compile_slice_plan_validation :
      Acceptance → SliceProposal → Result SliceCode (ValidationReceipt × String)
  compile_slice_plan_validation acceptance p = do
    check_proposal acceptance p
    acceptances ←
        owned_map p.ordered_slices (λ slice. slice.acceptance_ids)
          acceptance.executable_acceptance_ids slice_proposal_acceptance_exactness
          slice_proposal_acceptance_owner
    commands ←
        owned_map p.ordered_slices (λ slice. slice.required_commands) p.required_commands
          slice_proposal_command_exactness slice_proposal_command_owner
    evidence ←
        owned_map p.ordered_slices (λ slice. slice.required_evidence) p.required_evidence
          slice_proposal_evidence_exactness slice_proposal_evidence_owner
    reject (not (p.proposal_digest == proposal_digest p)) slice_proposal_digest
    let receipt : ValidationReceipt = record {
      schema = "issue-orchestration.slice-plan-validation-receipt.v1";
      status = "verified";
      proposal_digest = p.proposal_digest;
      acceptance_contract_digest = acceptance.contract_digest;
      proposal_authored_by = p.proposal_authored_by;
      validated_by = "deterministic-slice-validator.v2";
      generated_by_validator = false;
      acceptance_owner_map = acceptances;
      command_owner_map = commands;
      evidence_owner_map = evidence;
      ordered_slice_ids = slice_ids p.ordered_slices;
    }
    ok (receipt, receipt_digest receipt)
