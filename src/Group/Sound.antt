-- ===== src/Group/Sound.antt =====
-- What every session that is created and run satisfies, and the steps that a session can make.
use issue_orchestration.Prelude.{
  String, Bool, true, false, Option, some, none, List, ◌==◌, ◌≡◌, not, ◌&&◌, every, same, is_hash,
  is_sha, is_printed, is_distinct, length, ltb, lookup, has, ok,
}
use issue_orchestration.Landing.Lane.{is_repository}
use issue_orchestration.Group.Session.{
  Session, GroupMember, MemberStatus, CandidateIdentity, MemberReceipt, MemberCommit, FrozenSource,
  member_active, member_writing, member_candidate_verified, member_awaiting_receipts, member_red,
  is_green, receipts_are_green,
}
use issue_orchestration.Group.Operations.{
  FrozenIdentity, LeaseInput, CandidateInput, ReleaseInput, ReceiptInput, HumanInput,
  activate_group_member, acquire_member_write_lease, record_member_candidate,
  release_member_write_lease, bind_member_receipt, mark_member_human_decision_pending,
  candidate_sha_of, holds_lease,
}
use issue_orchestration.Group.Commits.{CommitInput, record_member_commit, freeze_group_source}

-- One call that returns a session.
pub data Step (digest : List (String × String) → String) (s t : Session) : Type 0 where
  activated : (i : FrozenIdentity) → activate_group_member digest s i ≡ ok t → Step digest s t
  leased : (i : LeaseInput) → acquire_member_write_lease s i ≡ ok t → Step digest s t
  recorded : (i : CandidateInput) → record_member_candidate s i ≡ ok t → Step digest s t
  released : (i : ReleaseInput) → release_member_write_lease s i ≡ ok t → Step digest s t
  bound : (i : ReceiptInput) → bind_member_receipt s i ≡ ok t → Step digest s t
  committed : (i : CommitInput) → record_member_commit s i ≡ ok t → Step digest s t
  suspended : (i : HumanInput) → mark_member_human_decision_pending s i ≡ ok t → Step digest s t
  frozen : (i : FrozenSource) → freeze_group_source s i ≡ ok t → Step digest s t

-- The states of the member that is active, and those under a lease.
abbrev pub is_working : MemberStatus → Bool
is_working member_active = true
is_working member_writing = true
is_working member_candidate_verified = true
is_working member_awaiting_receipts = true
is_working member_red = true
is_working _ = false

abbrev pub is_under_lease : MemberStatus → Bool
is_under_lease member_writing = true
is_under_lease member_candidate_verified = true
is_under_lease _ = false

abbrev pub is_holder : String → GroupMember → Bool
is_holder lease_id m = is_under_lease m.status && holds_lease (some lease_id) m.write_lease

abbrev pub candidate_fits : Option CandidateIdentity → Bool
candidate_fits none = true
candidate_fits (some c) = is_sha c.candidate_sha

abbrev pub receipt_fits : Option MemberReceipt → Bool
receipt_fits none = true
receipt_fits (some r) = r.status == "verified" && is_hash (some r.receipt_digest)

abbrev pub self_test_fits : Option MemberReceipt → Option CandidateIdentity → Bool
self_test_fits none candidate = true
self_test_fits (some r) none = false
self_test_fits (some r) (some c) = same r.candidate_sha c.candidate_sha

abbrev pub commit_fits : Option MemberCommit → GroupMember → Bool
commit_fits none m = not (is_green m.status)
commit_fits (some c) m =
    is_green m.status
    && receipts_are_green m
    && is_sha m.commit_sha
    && same m.commit_sha (some c.commit_sha)
    && same c.candidate_sha (candidate_sha_of m.candidate_identity)

-- A member has a well-formed candidate and well-formed verified receipts, the self test's of that
-- candidate. It has a commit only where it is green, with all three receipts.
unfoldable pub fits : GroupMember → Bool
fits m =
    candidate_fits m.candidate_identity
    && receipt_fits m.receipts.self_test
    && receipt_fits m.receipts.behavior
    && receipt_fits m.receipts.documentation
    && self_test_fits m.receipts.self_test m.candidate_identity
    && is_hash m.test_contract_digest
    && commit_fits m.commit m

unfoldable pub header_fits : Session → Bool
header_fits s =
    s.schema == "issue-orchestration.acceptance-group-session.v1"
    && is_repository s.repository
    && is_printed s.base_epoch
    && is_sha (some s.base_sha)
    && is_distinct s.member_order
    && ltb 0 (length s.member_order)

abbrev pub active_fits : Option String → List (String × GroupMember) → Bool
active_fits none entries = true
active_fits (some id) entries = has (λ m. is_working m.status) (lookup entries id)

abbrev pub lease_fits : Option String → Option String → List (String × GroupMember) → Bool
lease_fits none active entries = true
lease_fits (some lease_id) none entries = false
lease_fits (some lease_id) (some id) entries = has (is_holder lease_id) (lookup entries id)

-- A session: its header is well-formed, each of its members fits, the active member is at work, and
-- the active lease is held by the active member.
pub record IsSound (s : Session) : Type 0 where
  pub header : header_fits s ≡ true
  pub members : every (λ e. fits e.1) s.members ≡ true
  pub active : active_fits s.active_member_issue s.members ≡ true
  pub lease : lease_fits s.active_write_lease_id s.active_member_issue s.members ≡ true
