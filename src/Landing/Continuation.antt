-- ===== src/Landing/Continuation.antt =====
-- `recordLandingCheckpoint` and `resumeLandingSlice`. A text that is missing is the empty text, and an
-- exit code that is no integer, or is
-- negative, is missing.
use issue_orchestration.Prelude.{
  ℕ, ◌+◌, String, Bool, true, false, Option, some, none, List, [], ◌∷◌, ◌==◌, not, ◌&&◌, ◌||◌, any,
  map, length, eqb, leb, same, is_some, is_hash, is_printed, codes, has_part, if◌then◌else◌, Result,
  ok, err, reject, ◌>>=◌, ◌>>◌,
}
use issue_orchestration.Landing.Slice.{ActiveSlice, CommandStatus, Checkpoint}
use issue_orchestration.Landing.Log.{
  AttemptCode, AttemptState, Attempt, Projection, LogDigests, landing_transplanting,
  landing_slice_continuation_pending, require_attempt, append_attempt_event,
  landing_checkpoint_invalid, landing_continuation_checkpoint_mismatch,
  landing_continuation_restart_forbidden,
}

pub record CheckpointInput (Value : Type 0) : Type 0 where
  pub member_issue_id : String
  pub source_commit : String
  pub conflict_cluster_id : Option String
  pub status : String
  pub completed_transplant_operations : List Value
  pub verified_mappings : Value
  pub landing_status_digest : String
  pub command_statuses : List CommandStatus
  pub remaining_operations : List Value
  pub next_required_action : String
  pub resource_ownership_digest : String
  pub checkpoint_digest : String

pub record ResumeInput : Type 0 where
  pub checkpoint_digest : String
  pub member_issue_id : String
  pub source_commit : String
  pub conflict_cluster_id : Option String
  pub restart_source_inventory : Option Bool
  pub next_required_action : String

pub record ContinuationBody : Type 0 where
  pub schema : String
  pub landing_attempt_id : String
  pub member_issue_id : String
  pub source_commit : String
  pub conflict_cluster_id : Option String
  pub landing_slice_digest : String
  pub checkpoint_digest : String
  pub next_required_action : String
  pub restart_source_inventory : Bool

unfoldable pub bad_checkpoint : {Value : Type 0} → ActiveSlice → CheckpointInput Value → Bool
bad_checkpoint active i =
    not (active.member_issue_id == i.member_issue_id)
    || not (active.source_commit == i.source_commit)
    || not (same active.conflict_cluster_id i.conflict_cluster_id)
    || not (i.status == "partial")
    || not (is_hash (some i.landing_status_digest))
    || eqb (length i.command_statuses) 0
    || any
        (λ c.
          not (is_printed c.command) || not (is_some c.exit_code) || not (is_hash c.output_digest))
        i.command_statuses
    || eqb (length i.remaining_operations) 0
    || not (is_printed i.next_required_action)
    || not (is_hash (some i.resource_ownership_digest))
    || not (is_hash (some i.checkpoint_digest))

unfoldable pub checkpoint_of :
    {Value : Type 0} → Projection Value → ActiveSlice → CheckpointInput Value → Checkpoint Value
checkpoint_of p active i = record {
  schema = "issue-orchestration.landing-checkpoint.v1";
  landing_attempt_id = p.attempt_id;
  source_epoch_id = p.source_epoch_id;
  source_base_sha = p.source_base_sha;
  target_epoch_id = p.target_epoch_id;
  latest_remote_head = p.latest_remote_head;
  active_member_issue_id = i.member_issue_id;
  active_source_commit = i.source_commit;
  conflict_cluster_id = i.conflict_cluster_id;
  completed_transplant_operations = i.completed_transplant_operations;
  verified_mappings = i.verified_mappings;
  landing_status_digest = i.landing_status_digest;
  command_statuses = i.command_statuses;
  remaining_operations = i.remaining_operations;
  next_required_action = i.next_required_action;
  resource_ownership_digest = i.resource_ownership_digest;
  landing_work_plan_digest = active.landing_work_plan_digest;
  landing_slice_digest = active.landing_slice_digest;
  compiled_landing_prompt_digest = active.compiled_landing_prompt_digest;
  execution_route_decision_digest = active.execution_route_decision_digest;
  checkpoint_digest = i.checkpoint_digest;
}

abbrev is_pending : AttemptState → Bool
is_pending landing_slice_continuation_pending = true
is_pending _ = false

-- A character without its case; the flags `iu` take the long s for an s.
abbrev folded : ℕ → ℕ
folded c = if leb b'A' c && leb c b'Z' then c + 32 else (if eqb c 0x17f then b's' else c)

-- /(?:re-?read|restart|from scratch|complete source inventory)/iu
unfoldable pub restarts : String → Bool
restarts action =
    any (λ part. has_part (map folded (codes action)) (codes part))
      ("reread" ∷ "re-read" ∷ "restart" ∷ "from scratch" ∷ "complete source inventory" ∷ [])

abbrev pub is_false : Option Bool → Bool
is_false none = false
is_false (some value) = not value

unfoldable pub matches : {Value : Type 0} → Checkpoint Value → ResumeInput → Bool
matches c i =
    i.checkpoint_digest == c.checkpoint_digest
    && i.member_issue_id == c.active_member_issue_id
    && i.source_commit == c.active_source_commit
    && same i.conflict_cluster_id c.conflict_cluster_id

abbrev given : {A : Type 0} → AttemptCode → Option A → Result AttemptCode A
given code none = err code
given code (some a) = ok a

module _ {Value : Type 0} (digests : LogDigests Value)
    (continuation_digest : ContinuationBody → String) (payload : List String → Value) where
  -- recordLandingCheckpoint
  unfoldable pub record_landing_checkpoint :
      Attempt Value → CheckpointInput Value → Result AttemptCode (Attempt Value)
  record_landing_checkpoint a i = do
    require_attempt digests a
    active ← given landing_checkpoint_invalid a.projection.active_landing_slice
    reject (bad_checkpoint active i) landing_checkpoint_invalid
    append_attempt_event digests (some a) "landing-checkpoint.recorded"
        (payload (i.member_issue_id ∷ i.checkpoint_digest ∷ i.next_required_action ∷ []))
        (record a.projection {
          active_landing_slice =
              some (record active { landing_checkpoint_digest = some i.checkpoint_digest });
          landing_checkpoint = some (checkpoint_of a.projection active i);
          state = landing_slice_continuation_pending;
        })

  -- resumeLandingSlice
  unfoldable pub resume_landing_slice :
      Attempt Value → ResumeInput → Result AttemptCode (Attempt Value)
  resume_landing_slice a i = do
    require_attempt digests a
    reject (not (is_pending a.projection.state)) landing_continuation_checkpoint_mismatch
    checkpoint ← given landing_continuation_checkpoint_mismatch a.projection.landing_checkpoint
    active ← given landing_continuation_checkpoint_mismatch a.projection.active_landing_slice
    reject (not (matches checkpoint i)) landing_continuation_checkpoint_mismatch
    reject
        (not (is_false i.restart_source_inventory)
          || not (i.next_required_action == checkpoint.next_required_action)
          || restarts i.next_required_action)
        landing_continuation_restart_forbidden
    let digest : String = continuation_digest (record {
      schema = "issue-orchestration.landing-continuation-receipt.v1";
      landing_attempt_id = a.projection.attempt_id;
      member_issue_id = i.member_issue_id;
      source_commit = i.source_commit;
      conflict_cluster_id = i.conflict_cluster_id;
      landing_slice_digest = active.landing_slice_digest;
      checkpoint_digest = i.checkpoint_digest;
      next_required_action = i.next_required_action;
      restart_source_inventory = false;
    })
    append_attempt_event digests (some a) "landing-slice.resumed"
        (payload (i.member_issue_id ∷ i.checkpoint_digest ∷ digest ∷ []))
        (record a.projection {
          active_landing_slice =
              some (record active { landing_continuation_receipt_digest = some digest });
          landing_continuation_receipt_digest = some digest;
          state = landing_transplanting;
        })
