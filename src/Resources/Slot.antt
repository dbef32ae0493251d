-- ===== src/Resources/Slot.antt =====
-- A slot is given back only on a verified receipt of this attempt's cleanup.
use issue_orchestration.Prelude.{[], ◌≡◌, ok}
use issue_orchestration.Resources.Registry.{Registry}
use issue_orchestration.Resources.Receipt.{Digests, CleanupReceipt, verify_cleanup_receipt}
use issue_orchestration.Resources.Event.{Event}

-- The receipt by which a slot is given back.
pub record Released (digests : Digests) (r r' : Registry) : Type 0 where
  pub receipt : CleanupReceipt
  pub verified : verify_cleanup_receipt digests receipt ≡ ok tt
  pub nothing_left : receipt.post_inventory ≡ []
  pub of_run : receipt.run_id ≡ r.run_id
  pub of_attempt : receipt.attempt_id ≡ r.stage_attempt_id
  pub of_epoch : receipt.epoch_id ≡ r.epoch_id
  pub noted : r'.cleanup_receipt_digest ≡ receipt.receipt_digest
