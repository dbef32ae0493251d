-- ===== src/Resources/Event.antt =====
-- `applyResourceEvent`: what each event does to the registry of an attempt.
mod Changes
unfoldable pub use Changes.*
use issue_orchestration.Prelude.{
  ◌+◌, String, Bool, true, false, Option, some, none, List, [], ◌∷◌, ◌++◌, ◌==◌, not, ◌&&◌, ◌||◌,
  find, map, includes, is_text, is_printed, is_hash, is_sha, same, length, if◌then◌else◌, Result,
  ok, err, reject, ◌>>=◌, ◌>>◌,
}
use issue_orchestration.Resources.Registry.{
  Code, internal_red_attempt_rebuild_forbidden, self_test_failure_evidence,
  candidate_identity_missing, candidate_writer_missing, verification_rejection_identity,
  retained_service_owner_missing, cleanup_post_inventory_required, resource_ledger_binding_required,
  resource_dispatch_binding_required, resource_epoch_mismatch, cleanup_receipt_required,
  cleanup_receipt_binding_required, internal_red_cleanup_forbidden, cleanup_receipt_digest,
  resource_unowned_observation, process_descendant_still_live, docker_resource_still_present,
  retry_owner_reuse_forbidden, group_session_binding_mismatch, resource_registry_identity,
  WriteLease, ReadLease, Resource, Registry, create_resource_registry,
}
use issue_orchestration.Resources.Receipt.{
  CleanupReceipt, Digests, verify_cleanup_receipt, is_missing,
}

-- The events by their type, with the fields that each reads. A field that is missing and one that
-- is empty are told apart only where the source does.
pub data Event : Type 0 where
  self_test_failed : (new_attempt_id new_worktree_id failure_ref : Option String) → Binding → Event
  cleanup_started : Event
  candidate_green : (candidate_sha : Option String) → Binding → Event
  verification_rejected : (candidate_sha next_write_lease_id : Option String) → Event
  service_replaced : (resource_id : String) (descendants ports : List String) → Event
  stage_cleanup_completed : (receipt_digest : Option String) → Event
  terminal_requested :
      (receipt : Option CleanupReceipt) (terminal_status : Option String) → Binding → Event
  slot_release_requested : (receipt : Option CleanupReceipt) → Binding → Event
  observed_unowned : Event
  leader_exited : (resource_id : String) (descendants ports : List String) → Event
  container_stopped : Event
  retry_started : (stage_attempt_id issue_worktree_id previous_owner_attempt_id : String) → Event
  worktree_cleanup_requested : (dirty : Bool) → Event
  member_cleanup_completed : (group_session_digest member_id : Option String) → Event
  group_cleanup_completed :
      (group_session_digest : Option String) (post_inventory : Option (List Entry)) → Event
  unsupported : Event

module _ (digests : Digests) where
  -- applyVerifiedCleanup, with the test of `event.cleanupReceipt`
  unfoldable pub apply_verified_cleanup :
      Registry → Option CleanupReceipt → Binding → Result Code Registry
  apply_verified_cleanup r none b = err cleanup_receipt_required
  apply_verified_cleanup r (some receipt) b = do
    require_lifecycle_binding r b
    verify_cleanup_receipt digests receipt
    reject
        (not (receipt.run_id == r.run_id)
          || not (receipt.attempt_id == r.stage_attempt_id)
          || not (receipt.epoch_id == r.epoch_id))
        cleanup_receipt_binding_required
    ok (record r {
      cleanup_receipt_digest = receipt.receipt_digest;
      slot_held = false;
      write_lease = with_lease_state "released" r.write_lease;
      phase = some "cleaned";
    })

  -- event.terminalStatus ?? 'terminal'
  abbrev terminal_phase : Option String → Option String
  terminal_phase none = some "terminal"
  terminal_phase (some s) = some s

  abbrev some_entries : List String → List String → Bool
  some_entries [] [] = false
  some_entries _ _ = true

  -- What applyResourceEvent does with the copy of the registry.
  unfoldable pub apply_event : Registry → Event → Result Code Registry
  apply_event r (self_test_failed attempt worktree failure b) = do
    next ← apply_self_test_failure r attempt worktree failure
    require_lifecycle_binding next b
    ok next
  apply_event r cleanup_started =
      if same r.phase (some "implementing-self-testing")
      then err internal_red_cleanup_forbidden
      else ok (record r { phase = some "cleaning" })
  apply_event r (candidate_green sha b) = do
    require_lifecycle_binding r b
    apply_candidate_green r sha
  apply_event r (verification_rejected sha lease) = apply_verification_rejection r sha lease
  apply_event r (service_replaced id descendants ports) =
      apply_service_replacement r id descendants ports
  apply_event r (stage_cleanup_completed digest) = do
    reject (not (is_hash digest)) cleanup_receipt_digest
    ok (record r { cleanup_receipt_digest = digest })
  apply_event r (terminal_requested receipt status b) = do
    next ← apply_verified_cleanup r receipt b
    ok (record next { phase = terminal_phase status })
  apply_event r (slot_release_requested receipt b) = apply_verified_cleanup r receipt b
  apply_event r observed_unowned = err resource_unowned_observation
  apply_event r (leader_exited id descendants ports) = do
    reject (some_entries descendants ports) process_descendant_still_live
    reject (is_missing (find (λ x. x.resource_id == id) r.resources)) resource_registry_identity
    ok (record r {
      resources = update_first id (with_state "leader-exited-unverified") r.resources;
    })
  apply_event r container_stopped = err docker_resource_still_present
  apply_event r (retry_started attempt worktree previous) = do
    reject
        (not (is_printed attempt)
          || not (is_printed worktree)
          || not (previous == r.stage_attempt_id)
          || attempt == r.stage_attempt_id
          || worktree == r.issue_worktree_id)
        retry_owner_reuse_forbidden
    ok (record r {
      retry_requested = some (record {
        stage_attempt_id = attempt;
        issue_worktree_id = worktree;
        previous_owner_attempt_id = previous;
      });
    })
  apply_event r (worktree_cleanup_requested dirty) =
      if dirty
      then ok (record r {
        phase = some "quarantined-dirty";
        slot_held = true;
        delivery_authorized = false;
      })
      else ok r
  apply_event r (member_cleanup_completed session member) = do
    reject (not (same session r.group_session_digest)) group_session_binding_mismatch
    ok (apply_member_cleanup r member)
  apply_event r (group_cleanup_completed session inventory) = do
    reject (not (same session r.group_session_digest)) group_session_binding_mismatch
    apply_group_cleanup r inventory
  apply_event r unsupported = err Code.resource_event_unsupported

  -- applyResourceEvent
  unfoldable pub apply_resource_event : Registry → Event → Result Code Registry
  apply_resource_event r event = do next ← create_resource_registry r; apply_event next event
