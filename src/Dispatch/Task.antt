-- ===== src/Dispatch/Task.antt =====
-- A ready stage task, its execution class and the mutation contract of the class. The numbers that
-- rank a task are counts, which `validateTask` holds finite and at least 0.
use issue_orchestration.Prelude.{ℕ, String, Bool, List, [], ◌∷◌, includes, if◌then◌else◌}

pub data ExecutionClass : Type 0 where
  observe_only leased_writer root_control : ExecutionClass

pub data MutationContract : Type 0 where
  no_protected_mutation lease_and_slice_allowlist control_plane_and_delivery_gated :
      MutationContract

pub record Task : Type 0 where
  pub task_id : String
  pub issue_id : String
  pub repository : String
  pub issue_number : ℕ
  pub stage_kind : String
  pub stage_role : String
  pub execution_class : ExecutionClass
  pub priority_class : String
  pub starvation_age : ℕ
  pub downstream_blocked_count : ℕ
  pub critical_path_length : ℕ
  pub acceptance_group_completion_value : ℕ
  pub conflict_keys : List String
  pub exclusive_resource_keys : List String
  pub issue_worktree_id : String

-- expectedExecutionClass
unfoldable pub expected_execution_class : String → ExecutionClass
unfolding includes
expected_execution_class stage_kind =
    if includes ("behavior-verification" ∷ "ux-acceptance" ∷ []) stage_kind
    then observe_only
    else if includes ("delivery" ∷ "cleanup" ∷ []) stage_kind
    then root_control
    else leased_writer

-- expectedMutationContract
unfoldable pub expected_mutation_contract : ExecutionClass → MutationContract
expected_mutation_contract observe_only = no_protected_mutation
expected_mutation_contract leased_writer = lease_and_slice_allowlist
expected_mutation_contract root_control = control_plane_and_delivery_gated

-- task.executionClass !== 'observe-only'
abbrev pub writes : ExecutionClass → Bool
writes observe_only = Bool.false
writes _ = Bool.true
