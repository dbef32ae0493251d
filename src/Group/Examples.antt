-- ===== src/Group/Examples.antt =====
-- A group of two members that is created, run until it is green, frozen and handed off.
use issue_orchestration.Prelude.{
  String, true, false, some, none, List, [], ◌∷◌, ◌≡◌, refl, Result, ok, ◌>>=◌, >>=-eq-ok, has,
  lookup, put, every, any, zero_hash, is_hash, is_sha, is_printed, is_distinct, includes, same,
  last?, filter,
}
use issue_orchestration.Landing.Lane.{is_repository}
use issue_orchestration.Landing.Handoff.{validate_handoff}
use issue_orchestration.Group.Proposal.{
  Definition, Proposal, ProposedMember, same_texts, eligible_member, eligible_members,
  bad_definition, bad_identities, proposal_is_eligible,
}
use issue_orchestration.Group.Session.{
  Session, GroupMember, WriteLease, CandidateIdentity, MemberReceipt, MemberCommit, GroupCode,
  FrozenSource, green_committed, member_active, member_writing, member_candidate_verified,
  member_human_decision_pending, pending_member, new_session, require_session, require_member,
  place_in, previous_member, is_green, receipts_are_green, create_acceptance_group_session,
}
use issue_orchestration.Group.Operations.{
  FrozenIdentity, CandidateInput, ReceiptInput, behavior_class, documentation_class,
  assert_frozen_identity, activate_group_member, acquire_member_write_lease,
  record_member_candidate, release_member_write_lease, check_class, with_receipt,
  bind_member_receipt,
}
use issue_orchestration.Group.Commits.{
  RemoteState, GroupHandoff, landing_handoff_required, expected_parent, record_member_commit,
  members_in, commits_of, bad_source, freeze_group_source, create_landing_handoff,
}
use issue_orchestration.Group.Status.{
  Status, group_member_human_decision_pending, project_group_status, rows_in, rows_after,
  shares_key, add, block_rows, block_all, pending_rows, status_of_rows,
}
use issue_orchestration.Group.Sound.{Step, is_under_lease}
use issue_orchestration.Group.Runs.{Reach, records_candidate, reached_writer, reached_green}
use issue_orchestration.Group.Handoff.{reached_handoff}
use issue_orchestration.Group.Blocking.{is_blocked, project_group_status-exact}
use issue_orchestration.Group.Stale.{recorded_stale}

abbrev base_sha : String
base_sha = "0000000000000000000000000000000000000000"

abbrev first_sha : String
first_sha = "1111111111111111111111111111111111111111"

abbrev second_sha : String
second_sha = "2222222222222222222222222222222222222222"

abbrev definition_digest : Definition → String
definition_digest d = zero_hash

abbrev profiles_digest : List (String × String) → String
profiles_digest profiles = zero_hash

abbrev proposed : String → ProposedMember
proposed id = record {
  issue_id = id;
  repository = "o/r";
  epoch_id = "e";
  conflict_keys = "k" ∷ [];
  shared_source_keys = "k" ∷ [];
  low_conflict_parallel_eligible = some false;
  independently_deliverable = true;
  rollback_independent = true;
  classification_digest = some zero_hash;
  routing_input_digest = some zero_hash;
  test_contract_digest = some zero_hash;
  stage_profile_ids = ("writer", "profile") ∷ [];
  allowed_paths = "a.mjs" ∷ [];
}

abbrev proposal : Proposal
proposal = record {
  schema = "issue-orchestration.acceptance-group-proposal.v1";
  group_id = "g";
  definition = record {
    repository = "o/r";
    base_epoch = "e";
    base_sha = base_sha;
    member_issue_ids = "1" ∷ "2" ∷ [];
    member_order = "1" ∷ "2" ∷ [];
    shared_conflict_keys = "k" ∷ [];
    members = proposed "1" ∷ proposed "2" ∷ [];
  };
  group_definition_digest = zero_hash;
  group_worktree_identity = "w";
  group_branch_identity = "b";
  test_owner_identity = "t";
  implementer_continuity_identity = "i";
  resource_registry_identity = "r";
  accepted_without_modification = true;
}

abbrev created_session : Session
unfolding new_session
created_session = new_session proposal

created : create_acceptance_group_session definition_digest proposal ≡ ok created_session
unfolding create_acceptance_group_session proposal_is_eligible new_session bad_definition
    bad_identities eligible_members eligible_member same_texts is_repository is_printed is_distinct
    is_sha is_hash every any includes
created = refl

abbrev lease_of : String → WriteLease
lease_of id = record { lease_id = id; stage_role = "writer"; owner_identity = "i" }

abbrev candidate : CandidateIdentity
candidate = record {
  candidate_sha = some base_sha;
  candidate_digest = some zero_hash;
  implementer_identity = some "i";
}

abbrev receipt : String → String → MemberReceipt
receipt schema id = record {
  schema = schema;
  member_issue_id = id;
  test_contract_digest = some zero_hash;
  candidate_sha = some base_sha;
  status = "verified";
  receipt_digest = zero_hash;
  fresh_context = true;
  rollout_id = "x";
  verifier_identity = some "v";
  implementer_identity = some "i";
  independently_attributed = true;
  writer_identity = "d";
}

abbrev self_test : String → MemberReceipt
self_test id = receipt "issue-orchestration.member-self-test-receipt.v1" id

abbrev behavior : String → MemberReceipt
behavior id = receipt "issue-orchestration.member-behavior-receipt.v1" id

abbrev documentation : String → MemberReceipt
documentation id = receipt "issue-orchestration.member-documentation-receipt.v1" id

abbrev commit : String → String → String → MemberCommit
commit id sha parent = record {
  commit_sha = sha;
  parent_sha = some parent;
  issue_ids = id ∷ [];
  candidate_sha = some base_sha;
  atomic = true;
  independently_revertible = true;
  changed_paths = "a.mjs" ∷ [];
}

abbrev identity : String → FrozenIdentity
identity id = record {
  member_issue_id = id;
  classification_digest = some zero_hash;
  routing_input_digest = some zero_hash;
  test_contract_digest = some zero_hash;
  stage_profile_ids = [];
}

-- The calls that make one member green.
abbrev make_green : String → String → String → Session → Result GroupCode Session
make_green id sha parent s = do
  activated ← activate_group_member profiles_digest s (identity id)
  leased ←
      acquire_member_write_lease activated (record { member_issue_id = id; lease = lease_of id })
  recorded ← record_member_candidate leased (record {
    member_issue_id = id;
    candidate_identity = candidate;
    self_test_receipt = self_test id;
  })
  released ←
      release_member_write_lease recorded
        (record { member_issue_id = id; lease_id = id; reason = "implementation-complete" })
  behaved ←
      bind_member_receipt released
        (record { member_issue_id = id; receipt_class = behavior_class; receipt = behavior id })
  documented ← bind_member_receipt behaved (record {
    member_issue_id = id;
    receipt_class = documentation_class;
    receipt = documentation id;
  })
  record_member_commit documented (record { member_issue_id = id; commit = commit id sha parent })

-- The calls as steps, after a run.
made_green :
    (id sha parent : String) (r s t : Session)
    → Reach profiles_digest r s
    → make_green id sha parent s ≡ ok t
    → Reach profiles_digest r t
made_green id sha parent r s t run h =
    let (a, ha, h1) = >>=-eq-ok (activate_group_member profiles_digest s (identity id)) _ h in
    let (b, hb, h2) = >>=-eq-ok (acquire_member_write_lease a _) _ h1 in
    let (c, hc, h3) = >>=-eq-ok (record_member_candidate b _) _ h2 in
    let (d, hd, h4) = >>=-eq-ok (release_member_write_lease c _) _ h3 in
    let (e, he, h5) = >>=-eq-ok (bind_member_receipt d _) _ h4 in
    let (f, hf, h6) = >>=-eq-ok (bind_member_receipt e _) _ h5 in
    Reach.next
      (Reach.next
        (Reach.next
          (Reach.next
            (Reach.next (Reach.next (Reach.next run (Step.activated _ ha)) (Step.leased _ hb))
              (Step.recorded _ hc))
            (Step.released _ hd))
          (Step.bound _ he))
        (Step.bound _ hf))
      (Step.committed _ h6)

abbrev pending : String → GroupMember
unfolding pending_member
pending id = (pending_member (proposed id)).1

abbrev green : String → String → String → GroupMember
green id sha parent = record (pending id) {
  candidate_identity = some candidate;
  commit_sha = some sha;
  commit = some (commit id sha parent);
  status = green_committed;
  receipts = record {
    self_test = some (self_test id);
    behavior = some (behavior id);
    documentation = some (documentation id);
  };
}

abbrev first_green : Session
first_green = record created_session {
  members = ("1", green "1" first_sha base_sha) ∷ ("2", pending "2") ∷ [];
}

abbrev both_green : Session
both_green = record created_session {
  members = ("1", green "1" first_sha base_sha) ∷ ("2", green "2" second_sha first_sha) ∷ [];
}

first_made : make_green "1" first_sha base_sha created_session ≡ ok first_green
unfolding activate_group_member require_member require_session assert_frozen_identity
    previous_member place_in lookup put acquire_member_write_lease is_printed
    record_member_candidate is_sha is_hash release_member_write_lease bind_member_receipt
    check_class with_receipt record_member_commit expected_parent receipts_are_green same every
    includes created_session
first_made = refl

both_made : make_green "2" second_sha first_sha first_green ≡ ok both_green
unfolding activate_group_member require_member require_session assert_frozen_identity
    previous_member place_in lookup put acquire_member_write_lease is_printed
    record_member_candidate is_sha is_hash release_member_write_lease bind_member_receipt
    check_class with_receipt record_member_commit expected_parent receipts_are_green same every
    includes created_session
both_made = refl

abbrev first_run : Reach profiles_digest created_session first_green
first_run =
    made_green "1" first_sha base_sha created_session created_session first_green Reach.here
      first_made

abbrev second_run : Reach profiles_digest created_session both_green
second_run =
    made_green "2" second_sha first_sha created_session first_green both_green first_run both_made

abbrev source : FrozenSource
source = record {
  source_epoch = "e";
  source_base = base_sha;
  source_worktree = "w";
  source_branch = "b";
  immutable_source_tip = second_sha;
  dirty_inventory = [];
  untracked_inventory = [];
  resource_retention_receipt_digest = zero_hash;
}

abbrev frozen_group : Session
frozen_group = record both_green {
  immutable_source_tip = some second_sha;
  ordered_green_commit_prefix = first_sha ∷ second_sha ∷ [];
  frozen_source = some source;
}

frozen_made : freeze_group_source both_green source ≡ ok frozen_group
unfolding freeze_group_source require_session members_in commits_of bad_source created_session any
    is_sha is_hash is_printed last? same lookup
frozen_made = refl

abbrev remote : RemoteState
remote = record {
  remote_default_sha = some second_sha;
  current_epoch = some "e";
  required_reverification_classes = [];
}

-- The hand-off of a group that is committed on a remote head that has moved.
reached_handoff_example :
    (h : GroupHandoff) × ((create_landing_handoff frozen_group remote
        ≡ ok (landing_handoff_required h))
      × (validate_handoff h.handoff ≡ ok ("1" ∷ "2" ∷ [])))
unfolding created_session same is_distinct includes every is_printed any
reached_handoff_example =
    reached_handoff definition_digest profiles_digest proposal created_session both_green
      frozen_group source remote created second_run frozen_made refl refl refl refl

-- The first member, green in every session that is reached from here.
reached_green_example :
    (is_sha (some first_sha) ≡ true)
    × ((receipts_are_green (green "1" first_sha base_sha) ≡ true)
        × ((records_candidate (green "1" first_sha base_sha) ≡ true)
            × (has (λ n. is_green n.status) (lookup both_green.members "1") ≡ true)))
unfolding lookup created_session
reached_green_example =
    reached_green definition_digest profiles_digest proposal created_session first_green created
      first_run both_green "1" (green "1" first_sha base_sha)
      (made_green "2" second_sha first_sha first_green first_green both_green Reach.here both_made)
      refl refl

abbrev active_group : Session
active_group = record created_session {
  active_member_issue = some "1";
  members = ("1", record (pending "1") { status = member_active }) ∷ ("2", pending "2") ∷ [];
}

abbrev leased_group : Session
leased_group = record created_session {
  active_member_issue = some "1";
  active_write_lease_id = some "l";
  members =
      ("1", record (pending "1") { status = member_writing; write_lease = some (lease_of "l") })
      ∷ ("2", pending "2")
      ∷ [];
}

activated_made :
    activate_group_member profiles_digest created_session (identity "1") ≡ ok active_group
unfolding activate_group_member require_member require_session assert_frozen_identity
    previous_member place_in lookup put same created_session
activated_made = refl

leased_made :
    acquire_member_write_lease active_group (record { member_issue_id = "1"; lease = lease_of "l" })
    ≡ ok leased_group
unfolding acquire_member_write_lease require_member require_session lookup put same is_printed
    created_session
leased_made = refl

-- The holder of the lease of the first member.
reached_writer_example :
    (id : String) × ((leased_group.active_member_issue ≡ some id)
      × ((m : GroupMember) × ((lookup leased_group.members id ≡ some m)
            × ((l : WriteLease) × ((m.write_lease ≡ some l)
                  × ((l.lease_id ≡ "l") × (is_under_lease m.status ≡ true)))))))
unfolding created_session
reached_writer_example =
    reached_writer definition_digest profiles_digest proposal created_session leased_group created
      (Reach.next (Reach.next Reach.here (Step.activated (identity "1") activated_made))
        (Step.leased (record { member_issue_id = "1"; lease = lease_of "l" }) leased_made))
      "l" refl

-- A group whose first member waits for a decision.
abbrev waiting_group : Session
waiting_group = record created_session {
  members =
      ("1", record (pending "1") { status = member_human_decision_pending })
      ∷ ("2", pending "2")
      ∷ [];
}

abbrev waiting_status : Status
waiting_status = record {
  status = group_member_human_decision_pending;
  green = false;
  pending_human_members = "1" ∷ [];
  blocked_members = "2" ∷ [];
}

waiting_projected : project_group_status waiting_group ≡ ok waiting_status
unfolding project_group_status require_session rows_in status_of_rows pending_rows block_all
    block_rows rows_after shares_key add includes any every filter lookup created_session
waiting_projected = refl

project_group_status-exact_example :
    (rows : List (String × GroupMember)) × ((rows_in waiting_group.members ("1" ∷ "2" ∷ [])
        ≡ ok rows)
      × ((false ≡ every (λ row. is_green row.1.status) rows)
          × (includes ("2" ∷ []) "2" ≡ is_blocked rows "2")))
unfolding is_distinct includes created_session
project_group_status-exact_example =
    project_group_status-exact waiting_group waiting_status "2" refl waiting_projected

-- The first member is written again, with the receipts of its earlier candidate.
abbrev written_again : GroupMember
written_again = record (green "1" first_sha base_sha) {
  status = member_writing;
  write_lease = some (lease_of "l");
  commit_sha = none;
  commit = none;
}

abbrev second_candidate : CandidateInput
second_candidate = record {
  member_issue_id = "1";
  candidate_identity = record candidate { candidate_sha = some second_sha };
  self_test_receipt = record (self_test "1") { candidate_sha = some second_sha };
}

abbrev written_group : Session
written_group = record leased_group { members = ("1", written_again) ∷ ("2", pending "2") ∷ [] }

abbrev recorded_again : Session
recorded_again = record leased_group {
  members =
      (
        "1",
        record written_again {
          candidate_identity = some second_candidate.candidate_identity;
          receipts = record written_again.receipts {
            self_test = some second_candidate.self_test_receipt;
          };
          status = member_candidate_verified;
        },
      )
      ∷ ("2", pending "2")
      ∷ [];
}

recorded_made : record_member_candidate written_group second_candidate ≡ ok recorded_again
unfolding record_member_candidate require_member require_session lookup put same is_sha is_hash
    created_session
recorded_made = refl

recorded_stale_example :
    (n : GroupMember) × ((lookup recorded_again.members "1" ≡ some n)
      × ((n.candidate_identity ≡ some second_candidate.candidate_identity)
          × ((n.receipts.behavior ≡ some (behavior "1"))
              × ((receipts_are_green n ≡ true)
                  × ((j : ReceiptInput) (v : Session)
                      → j.member_issue_id ≡ "1"
                      → j.receipt_class ≡ behavior_class
                      → ¬ (bind_member_receipt recorded_again j ≡ ok v))))))
unfolding lookup created_session
recorded_stale_example =
    recorded_stale written_group recorded_again second_candidate written_again refl refl refl
      recorded_made
