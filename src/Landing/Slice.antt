-- ===== src/Landing/Slice.antt =====
-- What an attempt holds of the slice that is being landed: the slice, its checkpoint, the conflicts
-- and the receipts of the commits that are transplanted.
use issue_orchestration.Prelude.{Bool, ℕ, String, Option, List}

pub record ActiveSlice : Type 0 where
  pub slice_kind : String
  pub member_issue_id : String
  pub source_commit : String
  pub conflict_cluster_id : Option String
  pub landing_work_plan_digest : String
  pub active_landing_slice_id : String
  pub landing_slice_digest : String
  pub compiled_landing_prompt_digest : String
  pub landing_work_shape : String
  pub capability_requirement_digest : String
  pub execution_route_decision_digest : String
  pub selected_profile : String
  pub first_required_action : String
  pub first_writable_landing_path : String
  pub allowed_paths : List String
  pub required_commands : List String
  pub explicit_non_goals : List String
  pub landing_checkpoint_digest : Option String
  pub landing_continuation_receipt_digest : Option String

pub record CommandStatus : Type 0 where
  pub command : String
  pub exit_code : Option ℕ
  pub output_digest : Option String

pub record Checkpoint (Value : Type 0) : Type 0 where
  pub schema : String
  pub landing_attempt_id : String
  pub source_epoch_id : String
  pub source_base_sha : String
  pub target_epoch_id : String
  pub latest_remote_head : String
  pub active_member_issue_id : String
  pub active_source_commit : String
  pub conflict_cluster_id : Option String
  pub completed_transplant_operations : List Value
  pub verified_mappings : Value
  pub landing_status_digest : String
  pub command_statuses : List CommandStatus
  pub remaining_operations : List Value
  pub next_required_action : String
  pub resource_ownership_digest : String
  pub landing_work_plan_digest : String
  pub landing_slice_digest : String
  pub compiled_landing_prompt_digest : String
  pub execution_route_decision_digest : String
  pub checkpoint_digest : String

pub record Conflict : Type 0 where
  pub resolution_strategy : String
  pub conflict_cluster_id : Option String
  pub status : String
  pub resolution_authority : String
  pub difference_evidence_digest : Option String

pub record TransplantBody : Type 0 where
  pub schema : String
  pub repository : String
  pub landing_attempt_id : String
  pub member_issue_id : String
  pub source_commit : String
  pub new_commit_sha : String
  pub parent_sha : String
  pub source_patch_id : String
  pub landed_patch_id : String
  pub source_tree_digest : String
  pub landed_tree_digest : String
  pub changed_paths : List String
  pub conflict_manifest : List Conflict
  pub equivalence_disposition : String
  pub already_applied_evidence_digest : Option String
  pub candidate_sha : String
  pub terminal_receipt_digest : String
  pub landing_work_plan_digest : String
  pub landing_slice_digest : String
  pub compiled_landing_prompt_digest : String
  pub landing_work_shape : String
  pub capability_requirement_digest : String
  pub execution_route_decision_digest : String
  pub landing_checkpoint_digest : Option String
  pub landing_continuation_receipt_digest : Option String

pub record TransplantReceipt : Type 0 where
  pub body : TransplantBody
  pub receipt_digest : String

pub record EvidenceBody : Type 0 where
  pub schema : String
  pub repository : String
  pub landing_attempt_id : String
  pub member_issue_id : String
  pub evidence_class : String
  pub source_receipt_digest : Option String
  pub disposition : String
  pub source_independent : Bool
  pub source_base_sha : String
  pub target_base_sha : String
  pub new_candidate_sha : Option String
  pub verifier_receipt_digest : String

pub record EvidenceReceipt : Type 0 where
  pub body : EvidenceBody
  pub receipt_digest : String

pub record Reverification : Type 0 where
  pub schema : String
  pub repository : String
  pub member_issue_id : String
  pub base_sha : String
  pub candidate_sha : Option String
  pub status : String
  pub receipt_digest : String
