-- ===== src/Watchdog/Definitions.antt =====
-- The variables that `createWriterRuntimeWatchdog` closes over are the fields of a `Watchdog`; the
-- calls of the injected `cancel` and `persist` are appended to two of its lists. A number that is
-- not finite is `none`, and the others are whole: counts, milliseconds and process ids.
use issue_orchestration.Prelude.{
  ℕ, ◌+◌, String, Bool, true, false, Option, some, none, List, [], ◌∷◌, ◌++◌, not, ◌&&◌, ◌||◌, any,
  find, map, leb, eqb, is_text, is_hash, codes, starts_with, if◌then◌else◌, Result, ok, reject,
  ◌>>◌,
}

pub data Code : Type 0 where
  watchdog_capability_unavailable watchdog_binding watchdog_profile_forbidden : Code
  watchdog_terminal watchdog_untrusted_event watchdog_event_time : Code
  watchdog_artifact_path watchdog_artifact_evidence watchdog_checkpoint_digest : Code
  watchdog_continuation_digest watchdog_terminal_receipt_digest : Code

pub data Reason : Type 0 where
  read_budget_exceeded artifact_budget_exceeded artifact_time_budget_exceeded : Reason
  untrusted_runtime_event invalid_event_time first_action_mismatch unexpected_command : Reason
  invalid_command_process invalid_command_heartbeat invalid_checkpoint : Reason
  invalid_terminal_receipt watchdog_failure : Reason

pub data State : Type 0 where
  watching_first_action productive checkpoint_received completed terminal_failure_observed : State

pub data Status : Type 0 where
  status_checkpoint_received status_completed status_terminal_failure : Status

-- TERMINAL_STATES.has(state)
abbrev pub is_terminal : State → Bool
is_terminal completed = true
is_terminal checkpoint_received = true
is_terminal terminal_failure_observed = true
is_terminal _ = false

pub record Binding : Type 0 where
  pub request_id : String
  pub thread_id : String
  pub rollout_id : String
  pub attempt_id : String
  pub selected_profile : String
  pub first_required_action : String
  pub plan_digest : String
  pub slice_digest : String
  pub route_decision_digest : String
  pub lease_digest : String
  pub required_commands : List String

pub record Budgets : Type 0 where
  pub max_read_only_operations_before_checkpoint : ℕ
  pub max_no_artifact_tool_calls : ℕ
  pub max_no_artifact_active_ms : ℕ
  pub post_command_evidence_ms : ℕ

-- What an event says besides `trusted` and `atMs`, by its `type`.
pub data Body : Type 0 where
  runtime_initialized : Body
  tool_call : (read_only : Bool) → Body
  filesystem_write : (action path evidence_digest : Option String) → Body
  command_start : (command : String) (process_id : Option ℕ) → Body
  command_heartbeat :
      (process_id : Option ℕ) (process_alive : Bool) (lease_digest : Option String) → Body
  checkpoint_receipt :
      (valid resources_released : Bool) (checkpoint_digest continuation_digest : Option String)
      → Body
  terminal_receipt : (status receipt_digest : Option String) → Body
  watchdog_error : (name message : String) → Body
  other : (type : String) → Body

pub record Event : Type 0 where
  pub trusted : Bool
  pub at_ms : Option ℕ
  pub body : Body

-- An entry of `activeCommands`.
pub record Command : Type 0 where
  pub process_id : ℕ
  pub command : String
  pub last_heartbeat_at_ms : ℕ

pub record Receipt : Type 0 where
  pub status : Status
  pub binding : Binding
  pub first_action_verified : Bool
  pub first_artifact_verified : Bool
  pub state : State
  pub trace_digest : String
  pub trace_length : ℕ
  pub cancellation_reason : Option Reason

pub record Watchdog : Type 0 where
  pub binding : Binding
  pub budgets : Budgets
  pub started_at_ms : ℕ
  pub trace : List Event
  pub active_commands : List Command
  pub state : State
  pub first_action_verified : Bool
  pub first_artifact_verified : Bool
  pub read_only_operations : ℕ
  pub no_artifact_tool_calls : ℕ
  pub cancellation_reason : Option Reason
  pub terminal_status : Option Status
  pub persisted : Bool
  pub cancellations : List Reason
  pub receipts : List Receipt

-- The part of `validateInput` that typing leaves.
unfoldable pub validate_input :
    (trace cancellation cancel persist : Bool) → Binding → Result Code (Unit {0})
unfolding starts_with codes
validate_input trace cancellation cancel persist b = do
  reject (not trace || not cancellation || not cancel || not persist)
      watchdog_capability_unavailable
  reject
      (any (λ field. not (is_text (some field)))
        (b.request_id ∷ b.thread_id ∷ b.rollout_id ∷ b.attempt_id ∷ b.selected_profile
          ∷ b.first_required_action ∷ []))
      watchdog_binding
  reject
      (any (λ field. not (is_hash (some field)))
        (b.plan_digest ∷ b.slice_digest ∷ b.route_decision_digest ∷ b.lease_digest ∷ []))
      watchdog_binding
  reject
      (not (starts_with (codes b.selected_profile) (codes "terra-"))
        && not (starts_with (codes b.selected_profile) (codes "sol-")))
      watchdog_profile_forbidden

-- The variables as `createWriterRuntimeWatchdog` sets them.
unfoldable pub initial : Binding → Budgets → ℕ → Watchdog
initial b limits started = record {
  binding = b;
  budgets = limits;
  started_at_ms = started;
  trace = [];
  active_commands = [];
  state = watching_first_action;
  first_action_verified = false;
  first_artifact_verified = false;
  read_only_operations = 0;
  no_artifact_tool_calls = 0;
  cancellation_reason = none;
  terminal_status = none;
  persisted = false;
  cancellations = [];
  receipts = [];
}

-- createWriterRuntimeWatchdog
unfoldable pub create_writer_runtime_watchdog :
    (trace cancellation cancel persist : Bool) → Binding → Budgets → ℕ → Result Code Watchdog
create_writer_runtime_watchdog trace cancellation cancel persist b limits started = do
  validate_input trace cancellation cancel persist b
  ok (initial b limits started)

abbrev pub status_of : Option Status → State → Status
status_of (some s) state = s
status_of none checkpoint_received = status_checkpoint_received
status_of none completed = status_completed
status_of none _ = status_terminal_failure

-- record(event)
unfoldable pub recorded : Event → Watchdog → Watchdog
recorded e w = record w { trace = w.trace ++ e ∷ [] }

-- activeCommands.get(processId)
unfoldable pub active_command : Option ℕ → List Command → Option Command
active_command none cs = none
active_command (some id) cs = find (λ c. eqb c.process_id id) cs

-- activeCommands.set(processId, command)
unfoldable pub set_command : Command → List Command → List Command
set_command c cs =
    if any (λ d. eqb d.process_id c.process_id) cs
    then map (λ d. if eqb d.process_id c.process_id then c else d) cs
    else cs ++ c ∷ []

-- processId.isInteger && processId >= 1
unfoldable pub is_process : Option ℕ → Bool
is_process none = false
is_process (some id) = leb 1 id

-- The counters of `enforceOnlineBudgets`.
unfoldable pub counted : Body → Watchdog → Watchdog
counted (tool_call read_only) w = record w {
  no_artifact_tool_calls = w.no_artifact_tool_calls + 1;
  read_only_operations = if read_only then w.read_only_operations + 1 else w.read_only_operations;
}
counted _ w = w
