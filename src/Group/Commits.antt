-- ===== src/Group/Commits.antt =====
-- The commit of a member, the freezing of the source and the hand-off to landing.
use issue_orchestration.Prelude.{
  String, Bool, false, Option, some, none, List, [], ◌∷◌, ◌==◌, not, ◌&&◌, ◌||◌, any, every, length,
  ltb, eqb, last?, includes, same, is_hash, is_sha, is_printed, put, lookup, Result, ok, err,
  reject, ◌>>=◌, ◌>>◌, if◌then◌else◌,
}
use issue_orchestration.Landing.Handoff.{Handoff, HandoffMember}
use issue_orchestration.Group.Session.{
  Session, GroupMember, GroupCode, CandidateIdentity, MemberReceipt, Receipts, MemberCommit,
  FrozenSource, green_committed, is_green, receipts_are_green, require_session, require_member,
  found, place_in, previous_member, acceptance_group_member_not_green,
  acceptance_group_commit_not_atomic, acceptance_group_source_tip_immutable,
  acceptance_group_source_not_freezable, acceptance_group_source_not_frozen, type_error,
}
use issue_orchestration.Group.Operations.{candidate_sha_of}

pub record CommitInput : Type 0 where
  pub member_issue_id : String
  pub commit : MemberCommit

-- expectedParent
unfoldable pub expected_parent : Session → Option GroupMember → Option String
expected_parent s none = some s.base_sha
expected_parent s (some before) = before.commit_sha

abbrev is_only : List String → String → Bool
is_only (x ∷ []) id = x == id
is_only _ id = false

-- recordMemberCommit
unfoldable pub record_member_commit : Session → CommitInput → Result GroupCode Session
unfolding expected_parent
record_member_commit s i = do
  m ← require_member s i.member_issue_id
  before ← previous_member s (place_in s.member_order i.member_issue_id)
  reject (not (receipts_are_green m)) acceptance_group_member_not_green
  reject
      (not (is_sha (some i.commit.commit_sha))
        || not (same i.commit.parent_sha (expected_parent s before))
        || not (is_only i.commit.issue_ids i.member_issue_id)
        || not (same i.commit.candidate_sha (candidate_sha_of m.candidate_identity))
        || not i.commit.atomic
        || not i.commit.independently_revertible
        || not (
            ltb 0 (length i.commit.changed_paths)
            && every (λ path. includes m.allowed_paths path) i.commit.changed_paths))
      acceptance_group_commit_not_atomic
  ok (record s {
    active_member_issue = none;
    active_write_lease_id = none;
    members =
        put i.member_issue_id
          (record m {
            commit_sha = some i.commit.commit_sha;
            commit = some i.commit;
            status = green_committed;
          })
          s.members;
  })

-- The members in the order of the session.
unfoldable pub members_in :
    List (String × GroupMember) → List String → Result GroupCode (List GroupMember)
members_in entries [] = ok []
members_in entries (id ∷ ids) = do
  m ← found type_error (lookup entries id)
  rest ← members_in entries ids
  ok (m ∷ rest)

-- The commits of members of which none lacks its commit.
unfoldable pub commits_of : List GroupMember → List String
commits_of [] = []
commits_of (m ∷ ms) =
    let rest = commits_of ms in elim m.commit_sha [ none ↦ rest | some commit ↦ commit ∷ rest ]

unfoldable pub bad_source : Session → FrozenSource → List GroupMember → Bool
bad_source s i ms =
    any (λ m. not (is_sha m.commit_sha)) ms
    || any (λ m. not (is_green m.status)) ms
    || not (i.source_epoch == s.base_epoch)
    || not (i.source_base == s.base_sha)
    || not (is_printed i.source_worktree)
    || not (is_printed i.source_branch)
    || not (same (some i.immutable_source_tip) (last? (commits_of ms)))
    || not (eqb (length i.dirty_inventory) 0)
    || not (eqb (length i.untracked_inventory) 0)
    || not (is_hash (some i.resource_retention_receipt_digest))

-- freezeGroupSource
unfoldable pub freeze_group_source : Session → FrozenSource → Result GroupCode Session
freeze_group_source s i = do
  require_session s
  reject (not (same s.immutable_source_tip none)) acceptance_group_source_tip_immutable
  ms ← members_in s.members s.member_order
  reject (bad_source s i ms) acceptance_group_source_not_freezable
  ok (record s {
    immutable_source_tip = some i.immutable_source_tip;
    ordered_green_commit_prefix = commits_of ms;
    frozen_source = some i;
  })

pub record RemoteState : Type 0 where
  pub remote_default_sha : Option String
  pub current_epoch : Option String
  pub required_reverification_classes : List String

-- What the hand-off holds beside what `validateHandoff` reads.
pub record GroupHandoff : Type 0 where
  pub group_id : String
  pub remote : RemoteState
  pub handoff : Handoff

pub data Landing : Type 0 where
  fast_forward_delivery_window : String → List String → Landing
  landing_handoff_required : GroupHandoff → Landing

abbrev digest_of : String → Option MemberReceipt → List (String × String) → List (String × String)
digest_of receipt_class none rest = rest
digest_of receipt_class (some r) rest = (receipt_class, r.receipt_digest) ∷ rest

-- The digests of the receipts, under their classes.
unfoldable pub receipt_digests_of : Receipts → List (String × String)
receipt_digests_of r =
    digest_of "selfTest" r.self_test
      (digest_of "behavior" r.behavior (digest_of "documentation" r.documentation []))

abbrev candidate_of : Option CandidateIdentity → Result GroupCode CandidateIdentity
candidate_of none = err type_error
candidate_of (some c) = ok c

-- memberMapping
unfoldable pub member_mapping_of :
    List (String × GroupMember) → List String → Result GroupCode (List (String × HandoffMember))
member_mapping_of entries [] = ok []
member_mapping_of entries (id ∷ ids) = do
  m ← found type_error (lookup entries id)
  c ← candidate_of m.candidate_identity
  rest ← member_mapping_of entries ids
  ok (
      (
        id,
        record {
          commit_sha = m.commit_sha;
          candidate_sha = c.candidate_sha;
          test_contract_digest = m.test_contract_digest;
          receipt_digests = some (receipt_digests_of m.receipts);
        },
      )
      ∷ rest)

abbrev source_of : Option FrozenSource → Result GroupCode FrozenSource
source_of none = err type_error
source_of (some source) = ok source

-- The hand-off, of a session that is frozen.
unfoldable pub handed_off :
    Session → RemoteState → String → FrozenSource → List (String × HandoffMember) → GroupHandoff
handed_off s i tip source mapping = record {
  group_id = s.group_id;
  remote = i;
  handoff = record {
    schema = "issue-orchestration.landing-handoff.v1";
    disposition = "landing-handoff-required";
    repository = s.repository;
    source_epoch = s.base_epoch;
    source_base = s.base_sha;
    source_worktree = source.source_worktree;
    source_branch = source.source_branch;
    immutable_source_tip = tip;
    ordered_green_commit_prefix = s.ordered_green_commit_prefix;
    required_reverification_classes = i.required_reverification_classes;
    resource_retention_receipt_digest = source.resource_retention_receipt_digest;
    source_history_operations = [];
    dirty_inventory = source.dirty_inventory;
    untracked_inventory = source.untracked_inventory;
    member_mapping = mapping;
  };
}

abbrev tip_of : Option String → Result GroupCode String
tip_of none = err acceptance_group_source_not_frozen
tip_of (some tip) = ok tip

abbrev pub is_current : Session → RemoteState → Bool
is_current s i =
    same i.remote_default_sha (some s.base_sha) && same i.current_epoch (some s.base_epoch)

-- createLandingHandoff
unfoldable pub create_landing_handoff : Session → RemoteState → Result GroupCode Landing
create_landing_handoff s i = do
  require_session s
  reject (not (is_sha s.immutable_source_tip)) acceptance_group_source_not_frozen
  tip ← tip_of s.immutable_source_tip
  if is_current s i then ok (fast_forward_delivery_window tip s.ordered_green_commit_prefix) else do
    mapping ← member_mapping_of s.members s.member_order
    source ← source_of s.frozen_source
    ok (landing_handoff_required (handed_off s i tip source mapping))
