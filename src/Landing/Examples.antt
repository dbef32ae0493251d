-- ===== src/Landing/Examples.antt =====
-- A lane that is acquired, a hand-off of two members and an attempt with two events.
use issue_orchestration.Prelude.{
  ℕ, String, true, Option, some, none, List, [], ◌∷◌, ◌++◌, ◌≡◌, refl, map, length, Distinct,
  is_distinct-Distinct, ok, err, zero_hash, zero_hash-is_hash, is_printed, is_hash, is_sha,
  is_distinct, includes, any, last?, same, false, take, every, lookup, codes, has_part, starts_with,
}
use issue_orchestration.Landing.Lane.{
  Lane, LaneBody, LandingLease, Release, landing_idle, landing_active, seal_lane, require_lane,
  acquire_repository_landing_lease, release_repository_landing_lease,
  repository_landing_lease_active, acquired_until_released, is_repository,
}
use issue_orchestration.Landing.Handoff.{
  Handoff, HandoffMember, by_commit, member_of, texts, ordered_members, bad_member, bad_handoff,
  validate_handoff,
}
use issue_orchestration.Landing.Members.{commit, validate_handoff-commits}
use issue_orchestration.Landing.Log.{
  LogDigests, Attempt, Projection, LandingEvent, append_attempt_event, require_attempt,
  sealed_attempt, next_event, verify_event_log, verify_events, bad_event,
  landing_slice_continuation_pending,
}
use issue_orchestration.Landing.Slice.{ActiveSlice, TransplantBody}
use issue_orchestration.Landing.Transplant.{
  TransplantInput, record_commit_transplant, check_transplant, require_landing_member, bad_evidence,
  check_conflicts, automatic_choice, index_of, sealed_receipt, transplanted,
}
use issue_orchestration.Landing.Continuation.{
  CheckpointInput, ResumeInput, ContinuationBody, bad_checkpoint, checkpoint_of, restarts,
  record_landing_checkpoint, resume_landing_slice,
}
use issue_orchestration.Landing.Branch.{IsLinear, members_of, sources_of, is_linear, tip_after}
use issue_orchestration.Landing.Steps.{Outside, LandingStep, LandingStep-IsLinear}
use issue_orchestration.Landing.Resumed.{continues, is_ok, resumed_exactly}
use issue_orchestration.Landing.Creation.{AttemptInput, create_landing_attempt, initial_projection}
use issue_orchestration.Landing.Verified.{append_attempt_event-valid, create_landing_attempt-valid}

abbrev lane_digest : LaneBody → String
lane_digest b = zero_hash

abbrev clock : String → Option ℕ
clock time = some 0

lane_digest-is_hash : (b : LaneBody) → is_hash (some (lane_digest b)) ≡ true
lane_digest-is_hash b = zero_hash-is_hash

abbrev idle_body : LaneBody
idle_body = record {
  schema = "issue-orchestration.repository-landing-lane.v1";
  repository = "o/r";
  default_branch = "main";
  state = landing_idle;
  active_lease = none;
  attempt_ids = [];
  last_release = none;
}

abbrev lease : LandingLease
lease = record {
  attempt_id = "attempt-1";
  landing_lease_id = "lease-1";
  owner_identity = "owner";
  acquired_at = "now";
}

abbrev release : Release
release = record {
  attempt_id = "attempt-1";
  landing_lease_id = "lease-1";
  landing_receipt_digest = zero_hash;
  released_at = "later";
}

abbrev idle : Lane
idle = record { body = idle_body; lane_digest = zero_hash }

abbrev held_body : LaneBody
held_body = record idle_body {
  state = landing_active;
  active_lease = some lease;
  attempt_ids = "attempt-1" ∷ [];
}

abbrev held : Lane
held = record { body = held_body; lane_digest = zero_hash }

idle-acquired : acquire_repository_landing_lease lane_digest clock idle lease ≡ ok held
unfolding acquire_repository_landing_lease require_lane seal_lane is_printed is_hash
idle-acquired = refl

acquired_until_released_example :
    (acquire_repository_landing_lease lane_digest clock held lease
      ≡ err repository_landing_lease_active)
    × (release_repository_landing_lease lane_digest clock held release
        ≡ ok (
            seal_lane lane_digest (record idle_body {
              state = landing_idle;
              active_lease = none;
              attempt_ids = "attempt-1" ∷ [];
              last_release = some release;
            })))
acquired_until_released_example =
    acquired_until_released lane_digest clock lane_digest-is_hash idle held lease lease release
      idle-acquired refl refl zero_hash-is_hash refl

abbrev sha_a : String
sha_a = "aaaaaaaaaaaaaaaaaaaaaaaaaaaaaaaaaaaaaaaa"

abbrev sha_b : String
sha_b = "bbbbbbbbbbbbbbbbbbbbbbbbbbbbbbbbbbbbbbbb"

abbrev member : String → HandoffMember
member sha = record {
  commit_sha = some sha;
  candidate_sha = some sha;
  test_contract_digest = some zero_hash;
  receipt_digests = some (("behavior", zero_hash) ∷ []);
}

abbrev handoff : Handoff
handoff = record {
  schema = "issue-orchestration.landing-handoff.v1";
  disposition = "landing-handoff-required";
  repository = "o/r";
  source_epoch = "epoch-1";
  source_base = sha_a;
  source_worktree = "worktree";
  source_branch = "branch";
  immutable_source_tip = sha_b;
  ordered_green_commit_prefix = sha_a ∷ sha_b ∷ [];
  required_reverification_classes = "behavior" ∷ [];
  resource_retention_receipt_digest = zero_hash;
  source_history_operations = [];
  dirty_inventory = [];
  untracked_inventory = [];
  member_mapping = ("issue-2", member sha_b) ∷ ("issue-1", member sha_a) ∷ [];
}

abbrev members : List String
members = "issue-1" ∷ "issue-2" ∷ []

handoff-valid : validate_handoff handoff ≡ ok members
unfolding validate_handoff bad_handoff ordered_members texts by_commit member_of bad_member
    is_printed is_hash is_sha is_distinct includes any last? same is_repository
handoff-valid = refl

apart : Distinct ("issue-2" ∷ "issue-1" ∷ [])
unfolding is_distinct includes
apart = is_distinct-Distinct ("issue-2" ∷ "issue-1" ∷ []) refl

validate_handoff-commits_example :
    (map (λ id. commit (member_of handoff.member_mapping id)) members
      ≡ map some handoff.ordered_green_commit_prefix)
    × (Distinct members × (length members ≡ length handoff.member_mapping))
validate_handoff-commits_example = validate_handoff-commits handoff members apart handoff-valid

abbrev digests : LogDigests String
digests = record {
  of_payload = λ payload. zero_hash;
  of_event = λ e. zero_hash;
  of_projection = λ p. zero_hash;
  of_attempt = λ p es. zero_hash;
}

attempts-is_hash :
    (p : Projection String) (es : List (LandingEvent String))
    → is_hash (some (digests.of_attempt p es)) ≡ true
attempts-is_hash p es = zero_hash-is_hash

abbrev payload : List String → String
payload fields = "payload"

abbrev input : AttemptInput
input = record {
  attempt_id = "attempt-1";
  latest_remote_head = sha_a;
  target_epoch_id = "epoch-2";
  landing_lease_id = "lease-1";
  landing_worktree_identity = "worktree-2";
  landing_branch = "landing";
  resource_registry_identity = "registry";
}

abbrev first_projection : Projection String
first_projection = initial_projection digests held handoff members input

abbrev made : Attempt String
made =
    sealed_attempt digests
      (next_event digests [] "landing-attempt.created" "payload" first_projection ∷ [])
      first_projection

made-created : create_landing_attempt digests lane_digest payload held handoff input ≡ ok made
unfolding create_landing_attempt require_lane validate_handoff bad_handoff ordered_members texts
    by_commit member_of bad_member is_printed is_hash is_sha is_distinct includes any last? same
    is_repository append_attempt_event
made-created = refl

create_landing_attempt-valid_example : require_attempt digests made ≡ ok tt
create_landing_attempt-valid_example =
    create_landing_attempt-valid digests attempts-is_hash lane_digest payload held handoff input
      made made-created

abbrev extended : Attempt String
extended =
    sealed_attempt digests
      (made.event_log
        ++ next_event digests made.event_log "landing-slice.bound" "slice" first_projection ∷ [])
      first_projection

made-extended :
    append_attempt_event digests (some made) "landing-slice.bound" "slice" first_projection
    ≡ ok extended
unfolding append_attempt_event
made-extended =
    rw
      (create_landing_attempt-valid digests attempts-is_hash lane_digest payload held handoff input
        made made-created)
      refl

same_schema : first_projection.schema ≡ made.projection.schema
unfolding sealed_attempt
same_schema = refl

same_attempt : first_projection.attempt_id ≡ made.projection.attempt_id
unfolding sealed_attempt
same_attempt = refl

append_attempt_event-valid_example : require_attempt digests extended ≡ ok tt
append_attempt_event-valid_example =
    append_attempt_event-valid digests attempts-is_hash made extended "landing-slice.bound" "slice"
      first_projection made-extended same_schema same_attempt

abbrev slice : ActiveSlice
slice = record {
  slice_kind = "transplant-one-member-commit";
  member_issue_id = "issue-1";
  source_commit = sha_a;
  conflict_cluster_id = none;
  landing_work_plan_digest = zero_hash;
  active_landing_slice_id = "slice";
  landing_slice_digest = zero_hash;
  compiled_landing_prompt_digest = zero_hash;
  landing_work_shape = "shape";
  capability_requirement_digest = zero_hash;
  execution_route_decision_digest = zero_hash;
  selected_profile = "profile";
  first_required_action = "git status";
  first_writable_landing_path = "a.mjs";
  allowed_paths = "a.mjs" ∷ [];
  required_commands = [];
  explicit_non_goals = "refactoring" ∷ [];
  landing_checkpoint_digest = none;
  landing_continuation_receipt_digest = none;
}

abbrev bound_projection : Projection String
bound_projection = record first_projection { active_landing_slice = some slice }

abbrev bound : Attempt String
bound =
    sealed_attempt digests
      (made.event_log
        ++ next_event digests made.event_log "landing-slice.bound" "slice" bound_projection ∷ [])
      bound_projection

bound-IsLinear : IsLinear bound_projection
unfolding initial_projection members_of sources_of is_linear tip_after is_distinct every take
bound-IsLinear = record { order = refl; sources = refl; commits = refl; line = refl; tip = refl }

abbrev transplant : TransplantInput
transplant = record {
  member_issue_id = "issue-1";
  source_commit = sha_a;
  issue_ids = "issue-1" ∷ [];
  conflict_manifest = [];
  equivalence_disposition = "patch-and-tree-equivalent";
  new_commit_sha = sha_b;
  parent_sha = sha_a;
  source_patch_id = zero_hash;
  landed_patch_id = zero_hash;
  source_tree_digest = zero_hash;
  landed_tree_digest = zero_hash;
  changed_paths = "a.mjs" ∷ [];
  already_applied_evidence_digest = none;
  candidate_sha = sha_b;
  terminal_receipt_digest = zero_hash;
}

abbrev receipt_digest : TransplantBody → String
receipt_digest body = zero_hash

abbrev continuation_digest : ContinuationBody → String
continuation_digest body = zero_hash

abbrev outside : Outside String
outside = record {
  digests = digests;
  receipt_digest = receipt_digest;
  continuation_digest = continuation_digest;
  evidence_digest = λ body. zero_hash;
  landing_digest = λ body. zero_hash;
  date_parse = clock;
  payload = payload;
}

abbrev landed_projection : Projection String
landed_projection =
    transplanted (sealed_receipt receipt_digest bound_projection slice transplant) transplant
      bound_projection

abbrev landed : Attempt String
landed =
    sealed_attempt digests
      (bound.event_log
        ++ next_event digests bound.event_log "landing-commit.transplanted" "payload"
            landed_projection
          ∷ [])
      landed_projection

bound-landed : record_commit_transplant digests receipt_digest payload bound transplant ≡ ok landed
unfolding record_commit_transplant check_transplant require_landing_member require_attempt
    verify_event_log verify_events bad_event append_attempt_event sealed_attempt next_event
    initial_projection bad_evidence check_conflicts automatic_choice index_of is_hash is_sha
    is_printed same includes any lookup last? member_of sealed_receipt
bound-landed = refl

LandingStep-IsLinear_example : IsLinear landed.projection
unfolding sealed_attempt
LandingStep-IsLinear_example =
    LandingStep-IsLinear outside bound landed (LandingStep.transplants transplant bound-landed)
      bound-IsLinear

abbrev checkpoint : CheckpointInput String
checkpoint = record {
  member_issue_id = "issue-1";
  source_commit = sha_a;
  conflict_cluster_id = none;
  status = "partial";
  completed_transplant_operations = [];
  verified_mappings = "";
  landing_status_digest = zero_hash;
  command_statuses =
      record { command = "git status"; exit_code = some 0; output_digest = some zero_hash } ∷ [];
  remaining_operations = "cherry-pick" ∷ [];
  next_required_action = "git cherry-pick";
  resource_ownership_digest = zero_hash;
  checkpoint_digest = zero_hash;
}

abbrev resumption : ResumeInput
resumption = record {
  checkpoint_digest = zero_hash;
  member_issue_id = "issue-1";
  source_commit = sha_a;
  conflict_cluster_id = none;
  restart_source_inventory = some false;
  next_required_action = "git cherry-pick";
}

abbrev paused_projection : Projection String
paused_projection = record bound_projection {
  active_landing_slice = some (record slice { landing_checkpoint_digest = some zero_hash });
  landing_checkpoint = some (checkpoint_of bound_projection slice checkpoint);
  state = landing_slice_continuation_pending;
}

abbrev paused : Attempt String
paused =
    sealed_attempt digests
      (bound.event_log
        ++ next_event digests bound.event_log "landing-checkpoint.recorded" "payload"
            paused_projection
          ∷ [])
      paused_projection

bound-paused :
    record_landing_checkpoint digests continuation_digest payload bound checkpoint ≡ ok paused
unfolding record_landing_checkpoint require_attempt verify_event_log verify_events bad_event
    append_attempt_event sealed_attempt next_event initial_projection bad_checkpoint is_hash
    is_printed same any last?
bound-paused = refl

resumed_exactly_example :
    is_ok (resume_landing_slice digests continuation_digest payload paused resumption)
    ≡ continues checkpoint resumption
resumed_exactly_example =
    resumed_exactly digests continuation_digest payload attempts-is_hash bound paused checkpoint
      resumption bound-paused

-- The input continues, and one that starts again does not.
continues-resumption : continues checkpoint resumption ≡ true
unfolding restarts has_part starts_with codes any same
continues-resumption = refl

not-continues :
    continues checkpoint (record resumption { next_required_action = "Re-read the sources" })
    ≡ false
unfolding restarts has_part starts_with codes any same
not-continues = refl
