-- ===== src/Landing/Creation.antt =====
-- `createLandingAttempt`: the projection that an attempt starts from, and its first event.
use issue_orchestration.Prelude.{
  String, Option, some, none, List, [], ◌∷◌, ◌==◌, not, ◌||◌, map, is_sha, is_printed, includes,
  if◌then◌else◌, Result, ok, err, reject, ◌>>=◌, ◌>>◌,
}
use issue_orchestration.Landing.Lane.{Lane, LaneBody, holds, require_lane}
use issue_orchestration.Landing.Handoff.{Handoff, HandoffMember, member_of, validate_handoff}
use issue_orchestration.Landing.Log.{
  AttemptCode, of_handoff, of_lane, landing_attempt_binding_invalid, landing_transplanting,
  Projection, Attempt, LogDigests, append_attempt_event,
}

-- The arguments of `createLandingAttempt` besides the lane and the hand-off.
pub record AttemptInput : Type 0 where
  pub attempt_id : String
  pub latest_remote_head : String
  pub target_epoch_id : String
  pub landing_lease_id : String
  pub landing_worktree_identity : String
  pub landing_branch : String
  pub resource_registry_identity : String

abbrev lift : {E F A : Type 0} → (E → F) → Result E A → Result F A
lift f (ok a) = ok a
lift f (err e) = err (f e)

-- [...new Set(xs)], of what has not been seen.
unfoldable pub deduped : List String → List String → List String
deduped seen [] = []
deduped seen (x ∷ xs) =
    let rest = deduped (x ∷ seen) xs in if includes seen x then rest else x ∷ rest

abbrev commit_of : Option HandoffMember → Option String
commit_of none = none
commit_of (some m) = m.commit_sha

module _ {Value : Type 0} (digests : LogDigests Value) where
  -- The projection that `createLandingAttempt` starts from.
  unfoldable pub initial_projection : Lane → Handoff → List String → AttemptInput → Projection Value
  initial_projection lane h members input = record {
    schema = "issue-orchestration.landing-attempt.v1";
    attempt_id = input.attempt_id;
    repository = h.repository;
    default_branch = lane.body.default_branch;
    source_epoch_id = h.source_epoch;
    source_base_sha = h.source_base;
    source_worktree_identity = h.source_worktree;
    source_branch = h.source_branch;
    immutable_source_tip = h.immutable_source_tip;
    source_member_order = members;
    source_member_commit_shas = map (λ id. (id, commit_of (member_of h.member_mapping id))) members;
    source_member_mapping = h.member_mapping;
    source_history_operations = [];
    latest_remote_head = input.latest_remote_head;
    current_landing_tip = input.latest_remote_head;
    target_epoch_id = input.target_epoch_id;
    landing_lease_id = input.landing_lease_id;
    landing_worktree_identity = input.landing_worktree_identity;
    landing_branch = input.landing_branch;
    resource_registry_identity = input.resource_registry_identity;
    resource_retention_receipt_digest = h.resource_retention_receipt_digest;
    required_reverification_classes = deduped [] h.required_reverification_classes;
    transplant_operations = [];
    old_to_new_commit_sha_map = [];
    source_patch_ids = [];
    landed_patch_ids = [];
    source_tree_digests = [];
    landed_tree_digests = [];
    conflict_manifest = [];
    member_disposition = map (λ id. (id, "clean-transplant-required")) members;
    evidence_disposition = [];
    reverification_plan = [];
    reverification_receipts = [];
    human_decision_request_digest = none;
    active_landing_slice = none;
    landing_checkpoint = none;
    landing_continuation_receipt_digest = none;
    state = landing_transplanting;
  }

  -- createLandingAttempt; `created` makes the payload of its event.
  unfoldable pub create_landing_attempt :
      (LaneBody → String)
      → (List String → Value)
      → Lane
      → Handoff
      → AttemptInput
      → Result AttemptCode (Attempt Value)
  create_landing_attempt lane_digest created lane h input = do
    lift of_lane (require_lane lane_digest lane)
    members ← lift of_handoff (validate_handoff h)
    reject
        (not (lane.body.repository == h.repository)
          || not (holds lane.body.active_lease input.attempt_id input.landing_lease_id)
          || not (is_sha (some input.latest_remote_head))
          || not (is_printed input.target_epoch_id)
          || not (is_printed input.landing_worktree_identity)
          || not (is_printed input.landing_branch)
          || not (is_printed input.resource_registry_identity))
        landing_attempt_binding_invalid
    append_attempt_event digests none "landing-attempt.created"
        (created
          (h.source_epoch ∷ h.source_base ∷ input.latest_remote_head ∷ input.target_epoch_id ∷ []))
        (initial_projection lane h members input)
