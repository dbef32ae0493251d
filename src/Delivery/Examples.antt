-- ===== src/Delivery/Examples.antt =====
-- An epoch that binds the receipt of its verification.
use issue_orchestration.Prelude.{some, none, [], ◌∷◌, ◌≡◌, refl, ok, same, any, inr}
use issue_orchestration.Delivery.Epoch.{
  Epoch, StageReceipt, create_epoch, receipt_of, bind_stage_receipt, assert_stage_receipt,
}
use issue_orchestration.Delivery.Bound.{bind_stage_receipt-read, bind_stage_receipt-once}

abbrev receipt : StageReceipt
receipt = record {
  epoch_id = some "epoch-1";
  base_sha = none;
  repository_fingerprint = none;
  receipt_digest = some "digest-1";
}

abbrev fresh : Epoch
fresh = create_epoch "epoch-1"

abbrev bound : Epoch
bound = record fresh { stage_receipts = ("verification", receipt) ∷ [] }

receipt-bound : bind_stage_receipt fresh "verification" receipt ≡ ok bound
unfolding bind_stage_receipt create_epoch receipt_of same any
receipt-bound = refl

bind_stage_receipt-read_example :
    (assert_stage_receipt bound "verification" ≡ ok receipt)
    × (assert_stage_receipt bound "delivery" ≡ assert_stage_receipt fresh "delivery")
bind_stage_receipt-read_example =
    bind_stage_receipt-read fresh bound "verification" "delivery" receipt receipt-bound refl

bind_stage_receipt-once_example : ¬ bind_stage_receipt bound "delivery" receipt ≡ ok bound
bind_stage_receipt-once_example =
    bind_stage_receipt-once fresh bound bound "verification" "delivery" receipt receipt
      receipt-bound (inr ("digest-1", (refl, refl)))
