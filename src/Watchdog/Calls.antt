-- ===== src/Watchdog/Calls.antt =====
-- The calls that the watchdog answers. A call that throws keeps the state it has reached.
use issue_orchestration.Prelude.{
  ℕ, ◌-◌, String, Bool, true, Option, some, none, List, [], ◌∷◌, ◌++◌, length, not, ◌&&◌, ◌||◌, ltb,
  leb, is_text, is_hash, same, includes, if◌then◌else◌, Result, ok, err,
}
use issue_orchestration.Watchdog.Definitions.{
  Code, Reason, Body, Event, Command, Receipt, Watchdog, is_terminal, status_of, recorded,
  active_command, set_command, is_process, counted,
}
use issue_orchestration.Watchdog.Definitions.{
  watchdog_terminal, watchdog_untrusted_event, watchdog_event_time, watchdog_artifact_path,
  watchdog_artifact_evidence, watchdog_checkpoint_digest, watchdog_continuation_digest,
  watchdog_terminal_receipt_digest, read_budget_exceeded, artifact_budget_exceeded,
  artifact_time_budget_exceeded, untrusted_runtime_event, invalid_event_time, first_action_mismatch,
  unexpected_command, invalid_command_process, invalid_command_heartbeat, invalid_checkpoint,
  invalid_terminal_receipt, watchdog_failure, productive, checkpoint_received, completed,
  terminal_failure_observed, status_checkpoint_received, status_completed, status_terminal_failure,
  filesystem_write, command_start, command_heartbeat, checkpoint_receipt, terminal_receipt,
  watchdog_error,
}

-- A call that the run loop makes.
pub data Call : Type 0 where
  observe_call : Event → Call
  fail_closed_call : (name message : Option String) → Call

abbrev pub Outcome : Type 0
Outcome = Watchdog × Result Code Receipt

abbrev pub throws : Watchdog → Code → Outcome
throws w code = (w, err code)

abbrev pub or_default : Option String → String → String
or_default none d = d
or_default (some s) d = s

module _ (digest : List Event → String) where
  -- currentReceipt
  unfoldable pub current_receipt : Watchdog → Receipt
  current_receipt w = record {
    status = status_of w.terminal_status w.state;
    binding = w.binding;
    first_action_verified = w.first_action_verified;
    first_artifact_verified = w.first_artifact_verified;
    state = w.state;
    trace_digest = digest w.trace;
    trace_length = length w.trace;
    cancellation_reason = w.cancellation_reason;
  }

  abbrev pub replies : Watchdog → Outcome
  replies w = (w, ok (current_receipt w))

  -- persistOnce
  unfoldable pub persist_once : Watchdog → Watchdog
  persist_once w =
      if w.persisted
      then w
      else record w { persisted = true; receipts = w.receipts ++ current_receipt w ∷ [] }

  -- cancel
  unfoldable pub cancel : Reason → Watchdog → Watchdog
  unfolding persist_once
  cancel reason w =
      if is_terminal w.state
      then w
      else persist_once (record w {
        cancellation_reason = some reason;
        terminal_status = some status_terminal_failure;
        state = terminal_failure_observed;
        cancellations = w.cancellations ++ reason ∷ [];
      })

  -- The three limits of `enforceOnlineBudgets`.
  unfoldable pub limited : ℕ → Watchdog → Watchdog
  limited at w =
      if ltb w.budgets.max_read_only_operations_before_checkpoint w.read_only_operations
      then cancel read_budget_exceeded w
      else if leb w.budgets.max_no_artifact_tool_calls w.no_artifact_tool_calls
      then cancel artifact_budget_exceeded w
      else if ltb w.budgets.max_no_artifact_active_ms (at - w.started_at_ms)
      then cancel artifact_time_budget_exceeded w
      else w

  -- enforceOnlineBudgets
  unfoldable pub enforce_online_budgets : ℕ → Body → Watchdog → Watchdog
  enforce_online_budgets at b w = if w.first_artifact_verified then w else limited at (counted b w)

  -- The branches of `observe` for one `type` each.
  unfoldable pub observe_write : (action path evidence_digest : Option String) → Watchdog → Outcome
  observe_write action path evidence_digest w =
      if not w.first_action_verified && not (same action (some w.binding.first_required_action))
      then replies (cancel first_action_mismatch w)
      else if not (is_text path)
      then throws w watchdog_artifact_path
      else if not (is_hash evidence_digest)
      then throws w watchdog_artifact_evidence
      else replies (record w {
        first_action_verified = true;
        first_artifact_verified = true;
        state = productive;
      })

  abbrev pub started : String → Option ℕ → ℕ → Watchdog → Watchdog
  started command none at w = w
  started command (some id) at w =
      let c : Command = record { process_id = id; command = command; last_heartbeat_at_ms = at } in
      record w { active_commands = set_command c w.active_commands }

  unfoldable pub observe_start : String → Option ℕ → ℕ → Watchdog → Outcome
  observe_start command process_id at w =
      if not (includes w.binding.required_commands command)
      then replies (cancel unexpected_command w)
      else if not (is_process process_id)
      then replies (cancel invalid_command_process w)
      else replies (started command process_id at w)

  abbrev pub beat : ℕ → Option Command → Watchdog → Outcome
  beat at none w = replies (cancel invalid_command_heartbeat w)
  beat at (some c) w = replies (record w {
    active_commands = set_command (record c { last_heartbeat_at_ms = at }) w.active_commands;
    state = if w.first_artifact_verified then productive else w.state;
  })

  unfoldable pub observe_heartbeat : Option ℕ → Bool → Option String → ℕ → Watchdog → Outcome
  observe_heartbeat process_id alive lease at w =
      if not alive || not (same lease (some w.binding.lease_digest))
      then replies (cancel invalid_command_heartbeat w)
      else beat at (active_command process_id w.active_commands) w

  unfoldable pub observe_checkpoint :
      (valid released : Bool) (checkpoint continuation : Option String) → Watchdog → Outcome
  observe_checkpoint valid released checkpoint continuation w =
      if not w.first_artifact_verified || not valid || not released
      then replies (cancel invalid_checkpoint w)
      else if not (is_hash checkpoint)
      then throws w watchdog_checkpoint_digest
      else if not (is_hash continuation)
      then throws w watchdog_continuation_digest
      else replies (
          persist_once (record w {
            state = checkpoint_received;
            terminal_status = some status_checkpoint_received;
          }))

  unfoldable pub observe_terminal : (status receipt_digest : Option String) → Watchdog → Outcome
  observe_terminal status receipt_digest w =
      if not (same status (some "completed"))
        || not w.first_action_verified
        || not w.first_artifact_verified
      then replies (cancel invalid_terminal_receipt w)
      else if not (is_hash receipt_digest)
      then throws w watchdog_terminal_receipt_digest
      else replies
          (persist_once (record w { state = completed; terminal_status = some status_completed }))

  -- `observe` from its test of the type on.
  unfoldable pub observe_body : ℕ → Body → Watchdog → Outcome
  observe_body at (filesystem_write action path evidence) w = observe_write action path evidence w
  observe_body at (command_start command id) w = observe_start command id at w
  observe_body at (command_heartbeat id alive lease) w = observe_heartbeat id alive lease at w
  observe_body at (checkpoint_receipt valid released checkpoint continuation) w =
      observe_checkpoint valid released checkpoint continuation w
  observe_body at (terminal_receipt status receipt) w = observe_terminal status receipt w
  observe_body at _ w = replies w

  unfoldable pub observe_trusted : ℕ → Event → Watchdog → Outcome
  observe_trusted at e w =
      let next = enforce_online_budgets at e.body (recorded e w) in
      if is_terminal next.state then replies next else observe_body at e.body next

  -- `observe` from its test of the time on.
  unfoldable pub observe_timed : Option ℕ → Event → Watchdog → Outcome
  observe_timed none e w = throws (cancel invalid_event_time w) watchdog_event_time
  observe_timed (some at) e w =
      if ltb at w.started_at_ms
      then throws (cancel invalid_event_time w) watchdog_event_time
      else observe_trusted at e w

  -- observe
  unfoldable pub observe : Event → Watchdog → Outcome
  observe e w =
      if is_terminal w.state
      then throws w watchdog_terminal
      else if not e.trusted
      then throws (cancel untrusted_runtime_event w) watchdog_untrusted_event
      else observe_timed e.at_ms e w

  -- failClosed
  unfoldable pub fail_closed : (name message : Option String) → Watchdog → Outcome
  fail_closed name message w =
      let e : Event = record {
        trusted = true;
        at_ms = none;
        body = watchdog_error (or_default name "Error") (or_default message "watchdog failure");
      } in
      if is_terminal w.state then replies w else replies (cancel watchdog_failure (recorded e w))

  unfoldable pub call : Call → Watchdog → Outcome
  call (observe_call e) w = observe e w
  call (fail_closed_call name message) w = fail_closed name message w

  -- The state after a sequence of calls.
  unfoldable pub after_calls : List Call → Watchdog → Watchdog
  after_calls [] w = w
  after_calls (c ∷ cs) w = after_calls cs (call c w).0
