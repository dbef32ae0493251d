-- ===== src/Resources/Receipt.antt =====
-- `verifyCleanupReceipt` and `verifyLockReleaseObservation`. The digests, SHA-256 of canonical JSON,
-- are parameters.
use issue_orchestration.Prelude.{
  ℕ, String, Bool, true, false, Option, some, none, List, [], ◌∷◌, ◌==◌, not, ◌&&◌, ◌||◌, any,
  filter, is_printed, is_hash, same, length, eqb, Result, ok, err, reject, ◌>>◌,
}
use issue_orchestration.Resources.Registry.{
  Code, machine_resource_verifier_required, cleanup_receipt_schema,
  cleanup_post_inventory_not_empty, cleanup_receipt_binding_required,
  cleanup_lock_release_observation_required, cleanup_lock_final_filesystem_observation_required,
  cleanup_post_inventory_digest, cleanup_receipt_digest, is_epoch,
}

pub record CleanupAction : Type 0 where
  pub resource_id : String
  pub resource_type : String
  pub action : String

pub record FinalObservation : Type 0 where
  pub lock_path : String
  pub parent_path : String
  pub lock_path_exists : Bool
  pub parent_expected_absent : Bool
  pub parent_path_exists : Bool
  pub observed_at : String

-- `dev` and `inode` are `none` where they are no integer that is at least 0.
pub record LockObservation : Type 0 where
  pub resource_type : String
  pub resource_id : String
  pub path : String
  pub parent_path : String
  pub dev : Option ℕ
  pub inode : Option ℕ
  pub lock_path_exists_before_release : Bool
  pub parent_path_exists_before_release : Bool
  pub owner_absent : Bool
  pub owner_exit_status : String
  pub exit_status : ℕ
  pub probe_released : Bool
  pub final_observation : Option FinalObservation

-- A receipt without its `receiptDigest`.
pub record ReceiptBody : Type 0 where
  pub schema : String
  pub actor_role : String
  pub run_id : String
  pub attempt_id : String
  pub epoch_id : String
  pub baseline_digest : Option String
  pub owned_resource_digest : Option String
  pub cleanup_actions : List CleanupAction
  pub lock_release_observations : List LockObservation
  pub final_filesystem_observations : List FinalObservation
  pub retained_resources : List String
  pub quarantined_resources : List String
  pub failed_resources : List String
  pub post_inventory : List String
  pub post_cleanup_inventory_digest : Option String
  pub status : String
  pub verified_at : Option String

pub record CleanupReceipt : Type 0 where
  pub body : ReceiptBody
  pub open body use *
  pub receipt_digest : Option String

pub record Digests : Type 0 where
  pub inventory : List String → String
  pub final : FinalObservation → String
  pub receipt : ReceiptBody → String

abbrev pub is_missing {ℓ} : {A : Type ℓ} → Option A → Bool
is_missing none = true
is_missing (some a) = false

abbrev is_nonempty {ℓ} : {A : Type ℓ} → List A → Bool
is_nonempty [] = false
is_nonempty (x ∷ xs) = true

bad_release : LockObservation → Bool
bad_release o =
    not (o.resource_type == "lock")
    || not (is_printed o.resource_id)
    || not (is_printed o.path)
    || not (is_printed o.parent_path)
    || is_missing o.dev
    || is_missing o.inode
    || not o.lock_path_exists_before_release
    || not o.parent_path_exists_before_release
    || not o.owner_absent
    || not (is_printed o.owner_exit_status)
    || not (eqb o.exit_status 0)
    || not o.probe_released

bad_final : LockObservation → Bool
bad_final o = elim o.final_observation [
  | none ↦ true
  | some f ↦
      not (f.lock_path == o.path)
      || not (f.parent_path == o.parent_path)
      || f.lock_path_exists
      || not (is_printed f.observed_at)
      || (f.parent_expected_absent && f.parent_path_exists)
]

-- verifyLockReleaseObservation
unfoldable pub verify_lock_release_observation : LockObservation → Result Code (Unit {0})
unfolding bad_release bad_final
verify_lock_release_observation o = do
  reject (bad_release o) cleanup_lock_release_observation_required
  reject (bad_final o) cleanup_lock_final_filesystem_observation_required

unfoldable pub bad_binding : CleanupReceipt → Bool
bad_binding r =
    is_missing r.verified_at
    || is_missing r.receipt_digest
    || not (is_printed r.run_id)
    || not (is_printed r.attempt_id)
    || not (is_epoch r.epoch_id)
    || not (is_hash r.baseline_digest)
    || not (is_hash r.owned_resource_digest)
    || not (is_hash r.post_cleanup_inventory_digest)

module _ (digests : Digests) where
  digest_of : Option FinalObservation → Option String
  digest_of none = none
  digest_of (some f) = some (digests.final f)

  -- The loop over the lock observations, beside the final observations.
  unfoldable pub check_locks :
      List CleanupAction → List LockObservation → List FinalObservation → Result Code (Unit {0})
  unfolding digest_of
  check_locks actions [] finals = ok tt
  check_locks actions (o ∷ os) [] = err cleanup_lock_final_filesystem_observation_required
  check_locks actions (o ∷ os) (f ∷ finals) = do
    verify_lock_release_observation o
    reject
        (not (any (λ a. a.resource_id == o.resource_id) actions)
          || not (same (some (digests.final f)) (digest_of o.final_observation)))
        cleanup_lock_final_filesystem_observation_required
    check_locks actions os finals

  -- verifyCleanupReceipt
  unfoldable pub verify_cleanup_receipt : CleanupReceipt → Result Code (Unit {0})
  verify_cleanup_receipt r =
      let locks = filter (λ a. a.resource_type == "lock") r.cleanup_actions in
      do
        reject (not (r.actor_role == "machine-resource-verifier"))
            machine_resource_verifier_required
        reject
            (not (r.schema == "issue-orchestration.resource-cleanup-receipt.v1")
              || not (r.status == "resources-clean"))
            cleanup_receipt_schema
        reject (is_nonempty r.post_inventory) cleanup_post_inventory_not_empty
        reject (bad_binding r) cleanup_receipt_binding_required
        reject
            (any (λ a. not (a.action == "release-and-reacquire-observation")) locks
              || not (eqb (length locks) (length r.lock_release_observations))
              || not (
                  eqb (length r.final_filesystem_observations)
                    (length r.lock_release_observations)))
            cleanup_lock_release_observation_required
        check_locks locks r.lock_release_observations r.final_filesystem_observations
        reject
            (not (same r.post_cleanup_inventory_digest (some (digests.inventory r.post_inventory))))
            cleanup_post_inventory_digest
        reject (not (same r.receipt_digest (some (digests.receipt r.body)))) cleanup_receipt_digest
