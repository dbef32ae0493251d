-- ===== src/SlicePlan/Examples.antt =====
-- A plan of two slices, the second of which depends on the first.
use issue_orchestration.Prelude.{
  String, false, Option, some, none, [], ◌∷◌, ◌≡◌, refl, ok, zero_hash, lookup, includes,
  is_distinct, any, filter, codes, starts_with, same_codes,
}
use issue_orchestration.SlicePlan.Plan.{
  Acceptance, Slice, SliceProposal, codes_leb, insert_text, sorted, unique, unique_sorted,
  same_value, strip_slash, path_allowed, drop, valid_first, assert_text, assert_array, check_slice,
  check_slices,
}
use issue_orchestration.SlicePlan.Validation.{
  ValidationReceipt, keys, check_order, validate_dependencies, own_items, own_slices, owned_map,
  slice_ids, validate_acceptance, check_proposal, compile_slice_plan_validation,
}
use issue_orchestration.SlicePlan.Order.{Needs, IsBefore, compiled-ordered}
use issue_orchestration.SlicePlan.Owners.{IsExact, compiled-IsExact}

abbrev contract_digest : Acceptance → String
contract_digest acceptance = zero_hash

abbrev proposal_digest : SliceProposal → String
proposal_digest p = zero_hash

abbrev receipt_digest : ValidationReceipt → String
receipt_digest receipt = zero_hash

abbrev actor : SliceProposal → Option String
actor p = none

abbrev acceptance : Acceptance
acceptance = record {
  schema = "issue-orchestration.issue-acceptance-contract.v1";
  status = "frozen";
  executable_acceptance_ids = "a2" ∷ "a1" ∷ [];
  contract_digest = zero_hash;
}

abbrev slice : String → String → Slice
slice id item = record {
  slice_id = id;
  objective = "change the file";
  acceptance_ids = item ∷ [];
  allowed_paths = "src/a.mjs" ∷ [];
  first_required_action = "write:src/a.mjs";
  required_commands = [];
  required_evidence = [];
  max_changed_files = 1;
  max_owned_modules = 1;
}

abbrev proposal : SliceProposal
proposal = record {
  schema = "issue-orchestration.slice-plan-proposal.v1";
  proposal_authored_by = "test-owner:test-contract-planning";
  root_authored = some false;
  acceptance_contract_digest = zero_hash;
  objective = "change the file";
  allowed_paths = "src/" ∷ [];
  forbidden_paths = "src/b" ∷ [];
  ordered_slices = slice "s1" "a1" ∷ slice "s2" "a2" ∷ [];
  slice_dependency_graph = ("s2", "s1" ∷ []) ∷ ("s1", []) ∷ [];
  required_commands = [];
  required_evidence = [];
  proposal_digest = zero_hash;
}

abbrev receipt : ValidationReceipt
receipt = record {
  schema = "issue-orchestration.slice-plan-validation-receipt.v1";
  status = "verified";
  proposal_digest = zero_hash;
  acceptance_contract_digest = zero_hash;
  proposal_authored_by = "test-owner:test-contract-planning";
  validated_by = "deterministic-slice-validator.v2";
  generated_by_validator = false;
  acceptance_owner_map = ("a1", "s1") ∷ ("a2", "s2") ∷ [];
  command_owner_map = [];
  evidence_owner_map = [];
  ordered_slice_ids = "s1" ∷ "s2" ∷ [];
}

compiled :
    compile_slice_plan_validation contract_digest proposal_digest receipt_digest actor acceptance
      proposal
    ≡ ok (receipt, zero_hash)
unfolding compile_slice_plan_validation check_proposal validate_acceptance validate_dependencies
    check_order check_slices check_slice assert_text assert_array path_allowed strip_slash
    valid_first drop owned_map own_slices own_items unique_sorted unique sorted insert_text
    codes_leb same_value keys slice_ids lookup includes is_distinct any filter codes starts_with
    same_codes
compiled = refl

compiled-ordered_example : IsBefore ("s1" ∷ "s2" ∷ []) "s1" "s2"
unfolding lookup includes
compiled-ordered_example =
    compiled-ordered contract_digest proposal_digest receipt_digest actor acceptance proposal
      (receipt, zero_hash) "s2" "s1" compiled (Needs.direct ("s1" ∷ []) refl refl)

compiled-IsExact_example :
    IsExact proposal.ordered_slices
      (λ s. s.acceptance_ids)
      ("a2" ∷ "a1" ∷ [])
      receipt.acceptance_owner_map
    × (IsExact proposal.ordered_slices (λ s. s.required_commands) [] receipt.command_owner_map
        × IsExact proposal.ordered_slices (λ s. s.required_evidence) [] receipt.evidence_owner_map)
compiled-IsExact_example =
    compiled-IsExact contract_digest proposal_digest receipt_digest actor acceptance proposal
      (receipt, zero_hash) compiled
