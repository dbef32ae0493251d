-- ===== src/Resources/Examples.antt =====
-- A registry whose candidate turns green, and one whose slot is given back.
use issue_orchestration.Prelude.{
  String, true, false, some, none, [], ◌∷◌, ◌≡◌, refl, ok, zero_hash, is_hash, is_sha, is_printed,
  any, includes, is_distinct, same, is_space,
}
use issue_orchestration.Resources.Registry.{
  WriteLease, Resource, Registry, validate_registry, validate_resources, create_resource_registry,
  is_epoch, bad_write_lease, bad_base, foreign_resource, stateless,
}
use issue_orchestration.Resources.Receipt.{Digests, CleanupReceipt}
use issue_orchestration.Resources.Event.{
  Binding, Event, candidate_green, slot_release_requested, apply_candidate_green,
  require_lifecycle_binding, with_lease_state, apply_event, apply_resource_event,
}
use issue_orchestration.Resources.Leases.{Separated, apply_resource_event-Separated}
use issue_orchestration.Resources.History.{Continues, apply_resource_event-Continues}
use issue_orchestration.Resources.Reusable.{apply_resource_event-reusable}

abbrev sha : String
sha = "aaaaaaaaaaaaaaaaaaaaaaaaaaaaaaaaaaaaaaaa"

abbrev writer_lease : WriteLease
writer_lease = record { id = "w1"; owner_attempt_id = "a1"; mode = "write"; state = "active" }

abbrev worktree : Resource
worktree = record {
  resource_id = "tree";
  resource_type = "worktree";
  owner_class = "attempt";
  owner_run_id = "r1";
  owner_attempt_id = "a1";
  member_id = none;
  state = some "active";
  descendants = [];
  ports = [];
}

abbrev registry : Registry
registry = record {
  schema = "issue-orchestration.resource-registry.v1";
  run_id = "r1";
  issue_id = "i1";
  stage_attempt_id = "a1";
  stage_role = "code-implementer";
  issue_worktree_id = "tree";
  epoch_id = "epoch-a-1";
  allowed_paths_digest = some zero_hash;
  test_contract_digest = some zero_hash;
  base_sha = some sha;
  write_lease = some writer_lease;
  read_lease = none;
  resources = worktree ∷ [];
  phase = some "implementing-self-testing";
  candidate_sha = none;
  self_test_cycles = [];
  first_failure_refs = [];
  cleanup_receipt_digest = none;
  slot_held = true;
  delivery_authorized = false;
  retry_requested = none;
  group_session_digest = none;
}

abbrev binding : Binding
binding = record {
  ledger_event_digest = some zero_hash;
  dispatch_receipt_digest = some zero_hash;
  epoch_id = some "epoch-a-1";
}

abbrev digests : Digests
digests = record { inventory = λ ids. zero_hash; final = λ f. zero_hash; receipt = λ r. zero_hash }

abbrev green : Event
green = candidate_green (some sha) binding

abbrev verifying : Registry
verifying = record registry {
  write_lease = with_lease_state "revoked" registry.write_lease;
  read_lease = some (record {
    role = "independent-verifier";
    execution_class = "observe-only";
    mutation_contract = "no-protected-mutation";
    candidate_sha = some sha;
  });
  phase = some "independent-verifying";
  candidate_sha = some sha;
}

registry-valid : validate_registry registry ≡ ok tt
unfolding validate_registry validate_resources is_printed is_space is_hash is_sha is_epoch
    bad_write_lease bad_base any includes is_distinct foreign_resource stateless
registry-valid = refl

green-applied : apply_resource_event digests registry green ≡ ok verifying
unfolding apply_resource_event create_resource_registry apply_event apply_candidate_green
    require_lifecycle_binding is_hash is_sha same
green-applied = rw registry-valid refl

apply_resource_event-Separated_example : Separated verifying.read_lease verifying.write_lease
apply_resource_event-Separated_example =
    apply_resource_event-Separated digests registry verifying green green-applied tt

apply_resource_event-Continues_example : Continues registry verifying
apply_resource_event-Continues_example =
    apply_resource_event-Continues digests registry verifying green green-applied

apply_resource_event-reusable_example : create_resource_registry verifying ≡ ok verifying
apply_resource_event-reusable_example =
    apply_resource_event-reusable digests registry verifying green tt green-applied

abbrev receipt : CleanupReceipt
receipt = record {
  body = record {
    schema = "issue-orchestration.resource-cleanup-receipt.v1";
    actor_role = "machine-resource-verifier";
    run_id = "r1";
    attempt_id = "a1";
    epoch_id = "epoch-a-1";
    baseline_digest = some zero_hash;
    owned_resource_digest = some zero_hash;
    cleanup_actions = [];
    lock_release_observations = [];
    final_filesystem_observations = [];
    retained_resources = [];
    quarantined_resources = [];
    failed_resources = [];
    post_inventory = [];
    post_cleanup_inventory_digest = some zero_hash;
    status = "resources-clean";
    verified_at = some "now";
  };
  receipt_digest = some zero_hash;
}

abbrev free : Event
free = slot_release_requested (some receipt) binding

abbrev freed : Registry
freed = record registry {
  cleanup_receipt_digest = some zero_hash;
  slot_held = false;
  write_lease = with_lease_state "released" registry.write_lease;
  phase = some "cleaned";
}
