-- ===== src/Group/Operations.antt =====
-- The operations of a member: it is activated, is written under a lease, gets its candidate and its
-- receipts, and may wait for a human decision. `digest` is the digest of the stage profiles.
use issue_orchestration.Prelude.{
  String, Bool, true, false, Option, some, none, List, ◌==◌, not, ◌&&◌, ◌||◌, same, is_some,
  is_hash, is_sha, is_printed, put, Result, ok, reject, ◌>>=◌, ◌>>◌, if◌then◌else◌,
}
use issue_orchestration.Group.Session.{
  Session, GroupMember, GroupCode, WriteLease, CandidateIdentity, MemberReceipt, HumanRequest,
  member_active, member_writing, member_candidate_verified, member_awaiting_receipts, member_red,
  member_human_decision_pending, MemberStatus, is_green, is_verified, require_member, place_in,
  previous_member, acceptance_group_member_identity_drift, acceptance_group_write_lease_active,
  acceptance_group_current_member_not_green, acceptance_group_member_not_activatable,
  acceptance_group_member_not_active, acceptance_group_write_lease_invalid,
  acceptance_group_write_lease_required, acceptance_group_candidate_identity,
  acceptance_group_self_test_receipt_invalid, acceptance_group_write_lease_mismatch,
  acceptance_group_receipt_member_mismatch, acceptance_group_receipt_invalid,
  acceptance_group_receipt_class, acceptance_group_receipt_already_bound,
  acceptance_group_verifier_not_fresh, acceptance_group_documentation_receipt_invalid,
  acceptance_group_human_request_unverified, acceptance_group_human_request_too_late,
}

pub record FrozenIdentity : Type 0 where
  pub member_issue_id : String
  pub classification_digest : Option String
  pub routing_input_digest : Option String
  pub test_contract_digest : Option String
  pub stage_profile_ids : List (String × String)

pub record LeaseInput : Type 0 where
  pub member_issue_id : String
  pub lease : WriteLease

pub record CandidateInput : Type 0 where
  pub member_issue_id : String
  pub candidate_identity : CandidateIdentity
  pub self_test_receipt : MemberReceipt

pub record ReleaseInput : Type 0 where
  pub member_issue_id : String
  pub lease_id : String
  pub reason : String

pub data ReceiptClass : Type 0 where
  behavior_class documentation_class another_class : ReceiptClass

pub record ReceiptInput : Type 0 where
  pub member_issue_id : String
  pub receipt_class : ReceiptClass
  pub receipt : MemberReceipt

pub record HumanInput : Type 0 where
  pub member_issue_id : String
  pub request : HumanRequest
  pub retained_resource_receipt_digest : String

-- assertFrozenIdentity
unfoldable pub assert_frozen_identity :
    (List (String × String) → String) → GroupMember → FrozenIdentity → Result GroupCode (Unit {0})
assert_frozen_identity digest m i =
    reject
      (not (same i.classification_digest m.classification_digest)
        || not (same i.routing_input_digest m.routing_input_digest)
        || not (same i.test_contract_digest m.test_contract_digest)
        || not (digest i.stage_profile_ids == digest m.stage_profile_ids))
      acceptance_group_member_identity_drift

abbrev is_green_before : Option GroupMember → Bool
is_green_before none = true
is_green_before (some m) = is_green m.status

abbrev pub is_pending : MemberStatus → Bool
is_pending member_human_decision_pending = true
is_pending _ = false

abbrev is_active : MemberStatus → Bool
is_active member_active = true
is_active _ = false

-- activateGroupMember
unfoldable pub activate_group_member :
    (List (String × String) → String) → Session → FrozenIdentity → Result GroupCode Session
activate_group_member digest s i = do
  m ← require_member s i.member_issue_id
  assert_frozen_identity digest m i
  reject (is_some s.active_write_lease_id) acceptance_group_write_lease_active
  reject
      (is_some s.active_member_issue && not (same s.active_member_issue (some i.member_issue_id)))
      acceptance_group_current_member_not_green
  before ← previous_member s (place_in s.member_order i.member_issue_id)
  reject (not (is_green_before before)) acceptance_group_current_member_not_green
  reject (is_pending m.status || is_green m.status) acceptance_group_member_not_activatable
  ok (record s {
    active_member_issue = some i.member_issue_id;
    members = put i.member_issue_id (record m { status = member_active }) s.members;
  })

-- acquireMemberWriteLease
unfoldable pub acquire_member_write_lease : Session → LeaseInput → Result GroupCode Session
acquire_member_write_lease s i = do
  m ← require_member s i.member_issue_id
  reject (is_some s.active_write_lease_id) acceptance_group_write_lease_active
  reject (not (same s.active_member_issue (some i.member_issue_id)) || not (is_active m.status))
      acceptance_group_member_not_active
  reject
      (not (is_printed i.lease.lease_id)
        || not (is_printed i.lease.stage_role)
        || not (is_printed i.lease.owner_identity))
      acceptance_group_write_lease_invalid
  ok (record s {
    active_write_lease_id = some i.lease.lease_id;
    members =
        put i.member_issue_id (record m { write_lease = some i.lease; status = member_writing })
          s.members;
  })

-- The lease of the member, where the session's lease has its identifier.
abbrev pub holds_lease : Option String → Option WriteLease → Bool
holds_lease lease_id none = false
holds_lease lease_id (some l) = same lease_id (some l.lease_id)

abbrev owner : Option WriteLease → Option String
owner none = none
owner (some l) = some l.owner_identity

-- recordMemberCandidate
unfoldable pub record_member_candidate : Session → CandidateInput → Result GroupCode Session
record_member_candidate s i = do
  m ← require_member s i.member_issue_id
  reject
      (not (same s.active_member_issue (some i.member_issue_id))
        || not (holds_lease s.active_write_lease_id m.write_lease))
      acceptance_group_write_lease_required
  reject
      (not (is_sha i.candidate_identity.candidate_sha)
        || not (is_hash i.candidate_identity.candidate_digest)
        || not (same i.candidate_identity.implementer_identity (owner m.write_lease)))
      acceptance_group_candidate_identity
  reject
      (not (i.self_test_receipt.schema == "issue-orchestration.member-self-test-receipt.v1")
        || not (i.self_test_receipt.member_issue_id == i.member_issue_id)
        || not (same i.self_test_receipt.test_contract_digest m.test_contract_digest)
        || not (same i.self_test_receipt.candidate_sha i.candidate_identity.candidate_sha)
        || not (i.self_test_receipt.status == "verified")
        || not (is_hash (some i.self_test_receipt.receipt_digest)))
      acceptance_group_self_test_receipt_invalid
  ok (record s {
    members =
        put i.member_issue_id
          (record m {
            candidate_identity = some i.candidate_identity;
            receipts = record m.receipts { self_test = some i.self_test_receipt };
            status = member_candidate_verified;
          })
          s.members;
  })

-- releaseMemberWriteLease
unfoldable pub release_member_write_lease : Session → ReleaseInput → Result GroupCode Session
release_member_write_lease s i = do
  m ← require_member s i.member_issue_id
  reject
      (not (same s.active_member_issue (some i.member_issue_id))
        || not (same s.active_write_lease_id (some i.lease_id))
        || not (holds_lease (some i.lease_id) m.write_lease))
      acceptance_group_write_lease_mismatch
  ok (record s {
    active_write_lease_id = none;
    members =
        put i.member_issue_id
          (record m {
            write_lease = none;
            status =
                if i.reason == "implementation-complete"
                  && is_some m.candidate_identity
                  && is_verified m.receipts.self_test
                then member_awaiting_receipts
                else member_red;
          })
          s.members;
  })

abbrev class_schema : ReceiptClass → Option String
class_schema behavior_class = some "issue-orchestration.member-behavior-receipt.v1"
class_schema documentation_class = some "issue-orchestration.member-documentation-receipt.v1"
class_schema another_class = none

abbrev of_class : ReceiptClass → GroupMember → Option MemberReceipt
of_class behavior_class m = m.receipts.behavior
of_class documentation_class m = m.receipts.documentation
of_class another_class m = none

-- candidateSha of the candidate, and its implementer
abbrev pub candidate_sha_of : Option CandidateIdentity → Option String
candidate_sha_of none = none
candidate_sha_of (some c) = c.candidate_sha

abbrev implementer_of : Option CandidateIdentity → Option String
implementer_of none = none
implementer_of (some c) = c.implementer_identity

-- The last tests of `bindMemberReceipt`, by the class.
unfoldable pub check_class :
    GroupMember → ReceiptClass → MemberReceipt → Result GroupCode (Unit {0})
check_class m behavior_class r =
    reject
      (not r.fresh_context
        || not (is_printed r.rollout_id)
        || same r.verifier_identity r.implementer_identity
        || not (same r.implementer_identity (implementer_of m.candidate_identity)))
      acceptance_group_verifier_not_fresh
check_class m documentation_class r =
    reject (not r.independently_attributed || not (is_printed r.writer_identity))
      acceptance_group_documentation_receipt_invalid
check_class m another_class r = ok tt

-- receipts[receiptClass] = receipt
unfoldable pub with_receipt : ReceiptClass → MemberReceipt → GroupMember → GroupMember
with_receipt behavior_class r m = record m { receipts = record m.receipts { behavior = some r } }
with_receipt documentation_class r m = record m {
  receipts = record m.receipts { documentation = some r };
}
with_receipt another_class r m = m

-- bindMemberReceipt
unfoldable pub bind_member_receipt : Session → ReceiptInput → Result GroupCode Session
unfolding with_receipt
bind_member_receipt s i = do
  m ← require_member s i.member_issue_id
  reject (not (i.receipt.member_issue_id == i.member_issue_id))
      acceptance_group_receipt_member_mismatch
  reject
      (not (is_some m.candidate_identity)
        || not (same i.receipt.candidate_sha (candidate_sha_of m.candidate_identity))
        || not (i.receipt.status == "verified")
        || not (is_hash (some i.receipt.receipt_digest)))
      acceptance_group_receipt_invalid
  reject (not (same (class_schema i.receipt_class) (some i.receipt.schema)))
      acceptance_group_receipt_class
  reject (is_some (of_class i.receipt_class m)) acceptance_group_receipt_already_bound
  check_class m i.receipt_class i.receipt
  ok (record s {
    members = put i.member_issue_id (with_receipt i.receipt_class i.receipt m) s.members;
  })

-- markMemberHumanDecisionPending
unfoldable pub mark_member_human_decision_pending : Session → HumanInput → Result GroupCode Session
mark_member_human_decision_pending s i = do
  m ← require_member s i.member_issue_id
  reject
      (not (i.request.schema == "issue-orchestration.human-decision-request.v1")
        || not (i.request.verification_status == "verified")
        || not (i.request.member_issue_id == i.member_issue_id)
        || not (is_hash (some i.request.request_digest))
        || not (is_hash (some i.retained_resource_receipt_digest)))
      acceptance_group_human_request_unverified
  reject (is_green m.status) acceptance_group_human_request_too_late
  let waiting : GroupMember = record m {
    status = member_human_decision_pending;
    human_decision = some (i.request, i.retained_resource_receipt_digest);
  }
  ok (
      if same s.active_member_issue (some i.member_issue_id)
      then record s {
        active_member_issue = none;
        active_write_lease_id = none;
        members = put i.member_issue_id (record waiting { write_lease = none }) s.members;
      }
      else record s { members = put i.member_issue_id waiting s.members })
