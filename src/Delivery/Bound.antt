-- ===== src/Delivery/Bound.antt =====
-- What a receipt that is bound means for the reads and the bindings after it.
use issue_orchestration.Prelude.{
  String, true, false, some, List, [], ◌∷◌, ◌++◌, ◌==◌, ◌≡◌, refl, sym, arith, ◌⊎◌, any, any-append,
  same, eq_refl, Bool-cases, inl, inr, ok,
}
use issue_orchestration.Delivery.Epoch.{
  Epoch, StageReceipt, receipt_of, is_bound, digest_known, bind_stage_receipt, assert_stage_receipt,
}

receipt_of-new :
    (receipts : List (String × StageReceipt)) (stage : String) (r : StageReceipt)
    → is_bound (receipt_of receipts stage) ≡ false
    → receipt_of (receipts ++ (stage, r) ∷ []) stage ≡ some r
unfolding receipt_of
receipt_of-new [] stage r free = rw (eq_refl stage) refl
receipt_of-new ((name, s) ∷ receipts) stage r free = elim (Bool-cases (name == stage)) [
  | inl e ↦ absurd (ground (arith, e))
  | inr e ↦ rw e (receipt_of-new receipts stage r (ground (arith, e)))
]

receipt_of-old :
    (receipts : List (String × StageReceipt)) (stage other : String) (r : StageReceipt)
    → (stage == other) ≡ false
    → receipt_of (receipts ++ (stage, r) ∷ []) other ≡ receipt_of receipts other
unfolding receipt_of
receipt_of-old [] stage other r apart = rw apart refl
receipt_of-old ((name, s) ∷ receipts) stage other r apart =
    ground (arith, receipt_of-old receipts stage other r apart)

bound-eq :
    (e e' : Epoch) (stage : String) (r : StageReceipt)
    → bind_stage_receipt e stage r ≡ ok e'
    → (e' ≡ record e { stage_receipts = e.stage_receipts ++ (stage, r) ∷ [] })
      × (is_bound (receipt_of e.stage_receipts stage) ≡ false)
unfolding bind_stage_receipt
bound-eq e e' stage r h = (ground arith, ground arith)

-- The receipt that is bound to a stage is the one that is read for it afterwards, and what is read
-- for another stage is what was read before.
pub bind_stage_receipt-read :
    (e e' : Epoch) (stage other : String) (r : StageReceipt)
    → bind_stage_receipt e stage r ≡ ok e'
    → (stage == other) ≡ false
    → (assert_stage_receipt e' stage ≡ ok r)
      × (assert_stage_receipt e' other ≡ assert_stage_receipt e other)
unfolding assert_stage_receipt
bind_stage_receipt-read e e' stage other r h apart =
    let (made, free) = bound-eq e e' stage r h in
    let new = receipt_of-new e.stage_receipts stage r free in
    let old = receipt_of-old e.stage_receipts stage other r apart in
    rw made (rw (new, old) (refl, refl))

known-again :
    (receipts : List (String × StageReceipt)) (stage d : String) (r : StageReceipt)
    → r.receipt_digest ≡ some d
    → digest_known (some d) (receipts ++ (stage, r) ∷ []) ≡ true
unfolding any same
known-again receipts stage d r has = ground (
  arith,
  any-append (λ (entry : String × StageReceipt). same entry.1.receipt_digest (some d)) receipts
      ((stage, r) ∷ []),
  eq_refl d,
)

-- Once a receipt is bound, no receipt is bound to its stage, with a digest or without, and if it
-- has a digest, no receipt of that digest is bound to any stage.
pub bind_stage_receipt-once :
    (e e' e'' : Epoch) (stage again : String) (r s : StageReceipt)
    → bind_stage_receipt e stage r ≡ ok e'
    → (stage ≡ again) ⊎ ((d : String) × ((r.receipt_digest ≡ some d) × (s.receipt_digest ≡ some d)))
    → ¬ bind_stage_receipt e' again s ≡ ok e''
unfolding bind_stage_receipt
bind_stage_receipt-once e e' e'' stage again r s h (inl same_stage) k =
    let (made, free) = bound-eq e e' stage r h in
    let new = receipt_of-new e.stage_receipts stage r free in
    let taken : receipt_of e'.stage_receipts again ≡ some r = rw made (rw (sym same_stage) new) in
    absurd (ground (arith, taken))
bind_stage_receipt-once e e' e'' stage again r s h (inr (d, (has, same_digest))) k =
    let (made, free) = bound-eq e e' stage r h in
    let known : digest_known s.receipt_digest e'.stage_receipts ≡ true =
      rw made (rw same_digest (known-again e.stage_receipts stage d r has)) in
    absurd (ground (arith, known))
