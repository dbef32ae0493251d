-- ===== src/Landing/Log.antt =====
-- The event log of a landing attempt. The digests, and the JSON values that the operations only
-- carry along, are parameters.
use issue_orchestration.Prelude.{
  ℕ, ◌+◌, String, Bool, false, Option, some, none, List, [], ◌∷◌, ◌++◌, ◌==◌, not, ◌||◌, length,
  eqb, last?, same, is_hash, Result, ok, reject, ◌>>◌,
}
use issue_orchestration.Landing.Lane.{LaneCode}
use issue_orchestration.Landing.Handoff.{HandoffCode, HandoffMember}
use issue_orchestration.Landing.Slice.{
  ActiveSlice, Checkpoint, Conflict, TransplantReceipt, EvidenceReceipt, Reverification,
}

pub data AttemptCode : Type 0 where
  landing_attempt_event_log_invalid landing_attempt_projection_invalid : AttemptCode
  landing_attempt_invalid landing_attempt_binding_invalid : AttemptCode
  landing_slice_single_member_required landing_checkpoint_invalid : AttemptCode
  landing_continuation_checkpoint_mismatch landing_continuation_restart_forbidden : AttemptCode
  landing_transplant_active_slice_required landing_transplant_member_atomicity : AttemptCode
  landing_conflict_automatic_choice_forbidden landing_transplant_evidence_invalid : AttemptCode
  landing_transplant_source_replayed landing_transplant_member_order : AttemptCode
  landing_transplant_equivalence_invalid : AttemptCode
  landing_conflict_resolution_slice_required type_error : AttemptCode
  landing_evidence_member_not_transplanted landing_evidence_rebinding_invalid : AttemptCode
  landing_evidence_source_independence_unverified : AttemptCode
  landing_reverification_receipt_invalid : AttemptCode
  landing_reverification_source_receipt_replayed : AttemptCode
  landing_human_decision_not_authority_choice : AttemptCode
  landing_human_decision_request_unverified : AttemptCode
  landing_remote_drift_observation_invalid landing_attempt_not_ready : AttemptCode
  landing_fast_forward_proof_invalid worktree_disposition_invalid : AttemptCode
  of_handoff : HandoffCode → AttemptCode
  of_lane : LaneCode → AttemptCode

pub data AttemptState : Type 0 where
  landing_transplanting landing_slice_continuation_pending landing_reverifying : AttemptState
  human_decision_pending remote_drifted landed : AttemptState

-- The fields of an attempt except `eventLog` and `attemptDigest`.
pub record Projection (Value : Type 0) : Type 0 where
  pub schema : String
  pub attempt_id : String
  pub repository : String
  pub default_branch : String
  pub source_epoch_id : String
  pub source_base_sha : String
  pub source_worktree_identity : String
  pub source_branch : String
  pub immutable_source_tip : String
  pub source_member_order : List String
  pub source_member_commit_shas : List (String × Option String)
  pub source_member_mapping : List (String × HandoffMember)
  pub source_history_operations : List Value
  pub latest_remote_head : String
  pub current_landing_tip : String
  pub target_epoch_id : String
  pub landing_lease_id : String
  pub landing_worktree_identity : String
  pub landing_branch : String
  pub resource_registry_identity : String
  pub resource_retention_receipt_digest : String
  pub required_reverification_classes : List String
  pub transplant_operations : List TransplantReceipt
  pub old_to_new_commit_sha_map : List (String × String)
  pub source_patch_ids : List (String × String)
  pub landed_patch_ids : List (String × String)
  pub source_tree_digests : List (String × String)
  pub landed_tree_digests : List (String × String)
  pub conflict_manifest : List Conflict
  pub member_disposition : List (String × String)
  pub evidence_disposition : List (String × List (String × EvidenceReceipt))
  pub reverification_plan : List (String × List String)
  pub reverification_receipts : List (String × List (String × Reverification))
  pub human_decision_request_digest : Option String
  pub active_landing_slice : Option ActiveSlice
  pub landing_checkpoint : Option (Checkpoint Value)
  pub landing_continuation_receipt_digest : Option String
  pub state : AttemptState

pub record EventBody (Value : Type 0) : Type 0 where
  pub schema : String
  pub sequence : ℕ
  pub attempt_id : String
  pub event_type : String
  pub payload : Value
  pub payload_digest : String
  pub previous_event_digest : Option String
  pub resulting_projection_digest : String

pub record LandingEvent (Value : Type 0) : Type 0 where
  pub body : EventBody Value
  pub event_digest : String

pub record Attempt (Value : Type 0) : Type 0 where
  pub projection : Projection Value
  pub event_log : List (LandingEvent Value)
  pub attempt_digest : String

-- The digests of the four kinds of value.
pub record LogDigests (Value : Type 0) : Type 0 where
  pub of_payload : Value → String
  pub of_event : EventBody Value → String
  pub of_projection : Projection Value → String
  pub of_attempt : Projection Value → List (LandingEvent Value) → String

abbrev pub event_digest_of : {Value : Type 0} → Option (LandingEvent Value) → Option String
event_digest_of none = none
event_digest_of (some e) = some e.event_digest

module _ {Value : Type 0} (digests : LogDigests Value) where
  -- The test of one event of the log.
  unfoldable pub bad_event : Attempt Value → ℕ → Option String → LandingEvent Value → Bool
  bad_event a sequence previous e =
      not (e.body.schema == "issue-orchestration.landing-event.v1")
      || not (eqb e.body.sequence sequence)
      || not (e.body.attempt_id == a.projection.attempt_id)
      || not (same e.body.previous_event_digest previous)
      || not (e.body.payload_digest == digests.of_payload e.body.payload)
      || not (e.event_digest == digests.of_event e.body)

  -- The loop of `verifyEventLog`, from the event of a sequence number on.
  unfoldable pub verify_events :
      Attempt Value → ℕ → Option String → List (LandingEvent Value) → Result AttemptCode (Unit {0})
  verify_events a sequence previous [] = ok tt
  verify_events a sequence previous (e ∷ es) = do
    reject (bad_event a sequence previous e) landing_attempt_event_log_invalid
    verify_events a (sequence + 1) (some e.event_digest) es

  abbrev results_in : Option (LandingEvent Value) → String → Bool
  results_in none d = false
  results_in (some e) d = e.body.resulting_projection_digest == d

  -- verifyEventLog
  unfoldable pub verify_event_log : Attempt Value → Result AttemptCode (Unit {0})
  verify_event_log a = do
    verify_events a 1 none a.event_log
    reject (not (results_in (last? a.event_log) (digests.of_projection a.projection)))
        landing_attempt_projection_invalid

  -- requireAttempt
  unfoldable pub require_attempt : Attempt Value → Result AttemptCode (Unit {0})
  require_attempt a = do
    reject (not (a.projection.schema == "issue-orchestration.landing-attempt.v1"))
        landing_attempt_invalid
    reject (not (is_hash (some a.attempt_digest))) landing_attempt_invalid
    reject (not (digests.of_attempt a.projection a.event_log == a.attempt_digest))
        landing_attempt_invalid
    verify_event_log a

  -- The event that `appendAttemptEvent` adds to a log.
  unfoldable pub next_event :
      List (LandingEvent Value) → String → Value → Projection Value → LandingEvent Value
  next_event events event_type payload next =
      let b : EventBody Value = record {
        schema = "issue-orchestration.landing-event.v1";
        sequence = length events + 1;
        attempt_id = next.attempt_id;
        event_type = event_type;
        payload = payload;
        payload_digest = digests.of_payload payload;
        previous_event_digest = event_digest_of (last? events);
        resulting_projection_digest = digests.of_projection next;
      } in
      record { body = b; event_digest = digests.of_event b }

  unfoldable pub sealed_attempt : List (LandingEvent Value) → Projection Value → Attempt Value
  sealed_attempt events next = record {
    projection = next;
    event_log = events;
    attempt_digest = digests.of_attempt next events;
  }

  -- appendAttemptEvent; `next` is the projection with the changes made.
  unfoldable pub append_attempt_event :
      Option (Attempt Value)
      → String
      → Value
      → Projection Value
      → Result AttemptCode (Attempt Value)
  append_attempt_event none event_type payload next =
      ok (sealed_attempt (next_event [] event_type payload next ∷ []) next)
  append_attempt_event (some a) event_type payload next = do
    require_attempt a
    ok (sealed_attempt (a.event_log ++ next_event a.event_log event_type payload next ∷ []) next)
