-- ===== src/Group/Session.antt =====
-- The state of a session, its creation and the lookups that the operations share. A value that is
-- `null` or missing is `none`; where the source would read a field of `undefined`, the code is
-- `type_error`. The identifiers are not names of `Object.prototype`.
use issue_orchestration.Prelude.{
  String, Bool, true, false, Option, some, none, List, [], ◌∷◌, ◌==◌, not, ◌&&◌, map, lookup,
  Result, ok, err, reject, ◌>>=◌, ◌>>◌, if◌then◌else◌,
}
use issue_orchestration.Group.Proposal.{ProposedMember, Definition, Proposal, proposal_is_eligible}

pub data GroupCode : Type 0 where
  acceptance_group_proposal_ineligible acceptance_group_session_invalid : GroupCode
  acceptance_group_member_unknown acceptance_group_member_identity_drift : GroupCode
  acceptance_group_write_lease_active acceptance_group_current_member_not_green : GroupCode
  acceptance_group_member_not_activatable acceptance_group_member_not_active : GroupCode
  acceptance_group_write_lease_invalid acceptance_group_write_lease_required : GroupCode
  acceptance_group_candidate_identity acceptance_group_self_test_receipt_invalid : GroupCode
  acceptance_group_write_lease_mismatch acceptance_group_receipt_member_mismatch : GroupCode
  acceptance_group_receipt_invalid acceptance_group_receipt_class : GroupCode
  acceptance_group_receipt_already_bound acceptance_group_verifier_not_fresh : GroupCode
  acceptance_group_documentation_receipt_invalid acceptance_group_member_not_green : GroupCode
  acceptance_group_commit_not_atomic acceptance_group_source_tip_immutable : GroupCode
  acceptance_group_source_not_freezable acceptance_group_source_not_frozen : GroupCode
  acceptance_group_human_request_unverified acceptance_group_human_request_too_late : GroupCode
  type_error : GroupCode

pub data MemberStatus : Type 0 where
  member_pending member_active member_writing member_candidate_verified : MemberStatus
  member_awaiting_receipts member_red green_committed : MemberStatus
  member_human_decision_pending : MemberStatus

pub record WriteLease : Type 0 where
  pub lease_id : String
  pub stage_role : String
  pub owner_identity : String

pub record CandidateIdentity : Type 0 where
  pub candidate_sha : Option String
  pub candidate_digest : Option String
  pub implementer_identity : Option String

-- A receipt of a self test, of a behavior or of a documentation.
pub record MemberReceipt : Type 0 where
  pub schema : String
  pub member_issue_id : String
  pub test_contract_digest : Option String
  pub candidate_sha : Option String
  pub status : String
  pub receipt_digest : String
  pub fresh_context : Bool
  pub rollout_id : String
  pub verifier_identity : Option String
  pub implementer_identity : Option String
  pub independently_attributed : Bool
  pub writer_identity : String

pub record Receipts : Type 0 where
  pub self_test : Option MemberReceipt
  pub behavior : Option MemberReceipt
  pub documentation : Option MemberReceipt

pub record MemberCommit : Type 0 where
  pub commit_sha : String
  pub parent_sha : Option String
  pub issue_ids : List String
  pub candidate_sha : Option String
  pub atomic : Bool
  pub independently_revertible : Bool
  pub changed_paths : List String

pub record HumanRequest : Type 0 where
  pub schema : String
  pub verification_status : String
  pub member_issue_id : String
  pub request_digest : String

pub record GroupMember : Type 0 where
  pub issue_id : String
  pub repository : String
  pub epoch_id : String
  pub conflict_keys : List String
  pub shared_source_keys : List String
  pub classification_digest : Option String
  pub routing_input_digest : Option String
  pub stage_profile_ids : List (String × String)
  pub test_contract_digest : Option String
  pub allowed_paths : List String
  pub candidate_identity : Option CandidateIdentity
  pub commit_sha : Option String
  pub commit : Option MemberCommit
  pub status : MemberStatus
  pub receipts : Receipts
  pub write_lease : Option WriteLease
  pub human_decision : Option (HumanRequest × String)

pub record FrozenSource : Type 0 where
  pub source_epoch : String
  pub source_base : String
  pub source_worktree : String
  pub source_branch : String
  pub immutable_source_tip : String
  pub dirty_inventory : List String
  pub untracked_inventory : List String
  pub resource_retention_receipt_digest : String

pub record Session : Type 0 where
  pub schema : String
  pub group_id : String
  pub group_definition_digest : String
  pub repository : String
  pub base_epoch : String
  pub base_sha : String
  pub member_order : List String
  pub shared_conflict_keys : List String
  pub group_worktree_identity : String
  pub group_branch_identity : String
  pub test_owner_identity : String
  pub implementer_continuity_identity : String
  pub resource_registry_identity : String
  pub active_member_issue : Option String
  pub active_write_lease_id : Option String
  pub members : List (String × GroupMember)
  pub immutable_source_tip : Option String
  pub ordered_green_commit_prefix : List String
  pub frozen_source : Option FrozenSource

-- One entry of `members` in `createAcceptanceGroupSession`.
unfoldable pub pending_member : ProposedMember → String × GroupMember
pending_member m = (
  m.issue_id,
  record {
    issue_id = m.issue_id;
    repository = m.repository;
    epoch_id = m.epoch_id;
    conflict_keys = m.conflict_keys;
    shared_source_keys = m.shared_source_keys;
    classification_digest = m.classification_digest;
    routing_input_digest = m.routing_input_digest;
    stage_profile_ids = m.stage_profile_ids;
    test_contract_digest = m.test_contract_digest;
    allowed_paths = m.allowed_paths;
    candidate_identity = none;
    commit_sha = none;
    commit = none;
    status = member_pending;
    receipts = record { self_test = none; behavior = none; documentation = none };
    write_lease = none;
    human_decision = none;
  },
)

unfoldable pub new_session : Proposal → Session
unfolding pending_member
new_session p = record {
  schema = "issue-orchestration.acceptance-group-session.v1";
  group_id = p.group_id;
  group_definition_digest = p.group_definition_digest;
  repository = p.definition.repository;
  base_epoch = p.definition.base_epoch;
  base_sha = p.definition.base_sha;
  member_order = p.definition.member_order;
  shared_conflict_keys = p.definition.shared_conflict_keys;
  group_worktree_identity = p.group_worktree_identity;
  group_branch_identity = p.group_branch_identity;
  test_owner_identity = p.test_owner_identity;
  implementer_continuity_identity = p.implementer_continuity_identity;
  resource_registry_identity = p.resource_registry_identity;
  active_member_issue = none;
  active_write_lease_id = none;
  members = map pending_member p.definition.members;
  immutable_source_tip = none;
  ordered_green_commit_prefix = [];
  frozen_source = none;
}

-- createAcceptanceGroupSession
unfoldable pub create_acceptance_group_session :
    (Definition → String) → Proposal → Result GroupCode Session
create_acceptance_group_session digest p = do
  reject (not (proposal_is_eligible digest p)) acceptance_group_proposal_ineligible
  ok (new_session p)

-- requireSession
unfoldable pub require_session : Session → Result GroupCode (Unit {0})
require_session s =
    reject (not (s.schema == "issue-orchestration.acceptance-group-session.v1"))
      acceptance_group_session_invalid

abbrev pub found : GroupCode → Option GroupMember → Result GroupCode GroupMember
found code none = err code
found code (some m) = ok m

-- requireMember
unfoldable pub require_member : Session → String → Result GroupCode GroupMember
require_member s id = do
  require_session s
  found acceptance_group_member_unknown (lookup s.members id)

-- Where a member stands in the order.
pub data Place : Type 0 where
  first : Place
  after : String → Place
  nowhere : Place

abbrev behind : String → Place → Place
behind x first = after x
behind x (after y) = after y
behind x nowhere = nowhere

-- memberIndex, with the member before it
unfoldable pub place_in : List String → String → Place
place_in [] id = nowhere
place_in (x ∷ xs) id = if x == id then first else behind x (place_in xs id)

-- session.members[session.memberOrder[index - 1]]
unfoldable pub previous_member : Session → Place → Result GroupCode (Option GroupMember)
previous_member s first = ok none
previous_member s (after id) = do m ← found type_error (lookup s.members id); ok (some m)
previous_member s nowhere = err type_error

abbrev pub is_green : MemberStatus → Bool
is_green green_committed = true
is_green _ = false

abbrev pub is_verified : Option MemberReceipt → Bool
is_verified none = false
is_verified (some r) = r.status == "verified"

-- receiptsAreGreen
unfoldable pub receipts_are_green : GroupMember → Bool
receipts_are_green m =
    is_verified m.receipts.self_test
    && is_verified m.receipts.behavior
    && is_verified m.receipts.documentation
