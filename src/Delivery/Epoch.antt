-- ===== src/Delivery/Epoch.antt =====
-- The operations on an epoch. A field that an object lacks is `none`. The receipts stand in the
-- order in which they were bound; a stage named like a member of `Object.prototype` is not bound
-- here.
use issue_orchestration.Prelude.{
  String, Bool, true, false, Option, some, none, List, [], ◌∷◌, ◌++◌, ◌==◌, not, any, is_text, same,
  if◌then◌else◌, Result, ok, err, reject, ◌>>◌,
}

pub data EpochCode : Type 0 where
  fingerprint_required already_bound epoch_mismatch base_mismatch fingerprint_mismatch : EpochCode
  digest_bound missing_receipt disposition_forbidden : EpochCode

pub record StageReceipt : Type 0 where
  pub epoch_id : Option String
  pub base_sha : Option String
  pub repository_fingerprint : Option String
  pub receipt_digest : Option String

pub record Epoch : Type 0 where
  pub id : Option String
  pub epoch_id : Option String
  pub base_sha : Option String
  pub repository_fingerprint : Option String
  pub is_sealed : Bool
  pub cutover_frozen : Bool
  pub disposition : Option String
  pub stage_receipts : List (String × StageReceipt)

-- createEpoch
unfoldable pub create_epoch : String → Epoch
create_epoch id = record {
  id = some id;
  epoch_id = none;
  base_sha = none;
  repository_fingerprint = none;
  is_sealed = false;
  cutover_frozen = false;
  disposition = none;
  stage_receipts = [];
}

-- sealEpoch
unfoldable pub seal_epoch : Epoch → Result EpochCode Epoch
seal_epoch e = do
  reject (not (is_text e.repository_fingerprint)) fingerprint_required
  ok (record e { is_sealed = true })

abbrev or_value : Option String → Option String → Option String
or_value (some a) b = some a
or_value none b = b

-- expected !== undefined && actual !== expected
abbrev pub differs : Option String → Option String → Bool
differs none actual = false
differs (some expected) actual = not (same actual (some expected))

-- both given, and actual !== expected
abbrev pub conflicts : Option String → Option String → Bool
conflicts expected none = false
conflicts none (some actual) = false
conflicts (some expected) (some actual) = not (actual == expected)

-- receipts[stage]
unfoldable pub receipt_of : List (String × StageReceipt) → String → Option StageReceipt
receipt_of [] stage = none
receipt_of ((name, r) ∷ receipts) stage =
    if name == stage then some r else receipt_of receipts stage

abbrev pub is_bound : Option StageReceipt → Bool
is_bound none = false
is_bound (some r) = true

-- The digest is given, and one of the receipts that are bound has it.
abbrev pub digest_known : Option String → List (String × StageReceipt) → Bool
digest_known none receipts = false
digest_known (some d) receipts = any (λ entry. same entry.1.receipt_digest (some d)) receipts

-- bindStageReceipt
unfoldable pub bind_stage_receipt : Epoch → String → StageReceipt → Result EpochCode Epoch
bind_stage_receipt e stage r = do
  reject (is_bound (receipt_of e.stage_receipts stage)) already_bound
  reject (differs (or_value e.epoch_id e.id) r.epoch_id) epoch_mismatch
  reject (differs e.base_sha r.base_sha) base_mismatch
  reject (conflicts e.repository_fingerprint r.repository_fingerprint) fingerprint_mismatch
  reject (digest_known r.receipt_digest e.stage_receipts) digest_bound
  ok (record e { stage_receipts = e.stage_receipts ++ (stage, r) ∷ [] })

abbrev given : Option StageReceipt → Result EpochCode StageReceipt
given none = err missing_receipt
given (some r) = ok r

-- assertStageReceipt
unfoldable pub assert_stage_receipt : Epoch → String → Result EpochCode StageReceipt
assert_stage_receipt e stage = given (receipt_of e.stage_receipts stage)

-- freezeCutover
unfoldable pub freeze_cutover : Epoch → Epoch
freeze_cutover e = record e { cutover_frozen = true }

-- setDisposition
unfoldable pub set_disposition : Epoch → String → Result EpochCode Epoch
set_disposition e disposition = do
  reject (disposition == "reusable-unchanged") disposition_forbidden
  ok (record e { disposition = some disposition })
