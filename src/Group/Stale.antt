-- ===== src/Group/Stale.antt =====
-- A second candidate of a member, recorded while receipts of the first are bound.
use issue_orchestration.Prelude.{
  true, some, ◌==◌, ◌≡◌, sym, subst, refl, ap, ◌∙◌, arith, is_some, lookup, put, lookup-put_same,
  ok, >>=-eq-ok,
}
use issue_orchestration.Group.Session.{
  Session, GroupMember, require_member, is_verified, receipts_are_green, member_candidate_verified,
}
use issue_orchestration.Group.Operations.{
  CandidateInput, ReceiptInput, behavior_class, record_member_candidate, bind_member_receipt,
}

changed :
    (s t : Session) (i : CandidateInput) (m : GroupMember)
    → lookup s.members i.member_issue_id ≡ some m
    → record_member_candidate s i ≡ ok t
    → t ≡ record s {
      members =
          put i.member_issue_id
            (record m {
              candidate_identity = some i.candidate_identity;
              receipts = record m.receipts { self_test = some i.self_test_receipt };
              status = member_candidate_verified;
            })
            s.members;
    }
unfolding record_member_candidate require_member
changed s t i m at h = ground (arith, at)

verified :
    (s t : Session) (i : CandidateInput)
    → record_member_candidate s i ≡ ok t
    → (i.self_test_receipt.status == "verified") ≡ true
unfolding record_member_candidate
verified s t i h =
    let (m, got, rest) = >>=-eq-ok (require_member s i.member_issue_id) _ h in ground (arith, rest)

bound_again :
    (t v : Session) (j : ReceiptInput) (n : GroupMember)
    → lookup t.members j.member_issue_id ≡ some n
    → is_some n.receipts.behavior ≡ true
    → j.receipt_class ≡ behavior_class
    → ¬ (bind_member_receipt t j ≡ ok v)
unfolding bind_member_receipt require_member
bound_again t v j n at has_one class h = ground (arith, at, has_one, class)

-- A candidate that `recordMemberCandidate` records for a member with a verified behavior receipt and
-- a verified documentation receipt leaves both as they were, whichever candidate they name: the
-- member's receipts are green with the new candidate, and no behavior receipt can be bound for it.
pub recorded_stale :
    (s t : Session) (i : CandidateInput) (m : GroupMember)
    → lookup s.members i.member_issue_id ≡ some m
    → is_verified m.receipts.behavior ≡ true
    → is_verified m.receipts.documentation ≡ true
    → record_member_candidate s i ≡ ok t
    → (n : GroupMember) × ((lookup t.members i.member_issue_id ≡ some n)
        × ((n.candidate_identity ≡ some i.candidate_identity)
            × ((n.receipts.behavior ≡ m.receipts.behavior)
                × ((receipts_are_green n ≡ true)
                    × ((j : ReceiptInput) (v : Session)
                        → j.member_issue_id ≡ i.member_issue_id
                        → j.receipt_class ≡ behavior_class
                        → ¬ (bind_member_receipt t j ≡ ok v))))))
unfolding receipts_are_green
recorded_stale s t i m at behavior documentation h =
    let n : GroupMember = record m {
      candidate_identity = some i.candidate_identity;
      receipts = record m.receipts { self_test = some i.self_test_receipt };
      status = member_candidate_verified;
    } in
    let now : lookup t.members i.member_issue_id ≡ some n =
      ap (λ x. lookup x.members i.member_issue_id) (changed s t i m at h)
      ∙ lookup-put_same i.member_issue_id n m s.members at in
    (
      n,
      (
        now,
        (
          refl,
          (
            refl,
            (
              ground (arith, behavior, documentation, verified s t i h),
              λ j v same_id class.
                  bound_again t v j n (subst (λ k. lookup t.members k ≡ some n) (sym same_id) now)
                    (ground (arith, behavior)) class,
            ),
          ),
        ),
      ),
    )
