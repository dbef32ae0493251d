-- ===== src/Watchdog/Examples.antt =====
-- The watchdog on a run that is completed and on one that only calls tools.
use issue_orchestration.Prelude.{
  ℕ, String, true, false, some, List, [], ◌∷◌, ◌≡◌, refl, ◌≤◌, arith, any, map, All, length, inl,
  zero_hash, is_text, is_hash, same,
}
use issue_orchestration.Watchdog.Definitions.{
  Binding, Budgets, Event, Body, completed, filesystem_write, terminal_receipt, tool_call,
  terminal_failure_observed, initial, recorded, counted,
}
use issue_orchestration.Watchdog.Calls.{
  Call, observe_call, after_calls, call, observe, observe_timed, observe_trusted,
  enforce_online_budgets, limited, observe_body, observe_write, observe_terminal, persist_once,
}
use issue_orchestration.Watchdog.States.{IsSound}
use issue_orchestration.Watchdog.Sound.{after_calls-IsSound}
use issue_orchestration.Watchdog.Earned.{wrote, after_calls_earned}
use issue_orchestration.Watchdog.Budget.{IsToolCall, tool_calls-end}

abbrev writer : Binding
writer = record {
  request_id = "request-1";
  thread_id = "thread-1";
  rollout_id = "rollout-1";
  attempt_id = "attempt-1";
  selected_profile = "terra-writer";
  first_required_action = "write-tests";
  plan_digest = zero_hash;
  slice_digest = zero_hash;
  route_decision_digest = zero_hash;
  lease_digest = zero_hash;
  required_commands = "npm test" ∷ [];
}

abbrev limits : Budgets
limits = record {
  max_read_only_operations_before_checkpoint = 4;
  max_no_artifact_tool_calls = 2;
  max_no_artifact_active_ms = 1000;
  post_command_evidence_ms = 100;
}

abbrev at_time : ℕ → Body → Event
at_time at b = record { trusted = true; at_ms = some at; body = b }

abbrev no_digest : List Event → String
no_digest trace = zero_hash

abbrev good_run : List Call
good_run =
    observe_call
      (at_time 5 (filesystem_write (some "write-tests") (some "a.test") (some zero_hash)))
    ∷ observe_call (at_time 9 (terminal_receipt (some "completed") (some zero_hash)))
    ∷ []

good_run-completed : (after_calls no_digest good_run (initial writer limits 0)).state ≡ completed
unfolding after_calls call observe observe_timed observe_trusted enforce_online_budgets limited
    observe_body observe_write observe_terminal persist_once initial recorded counted is_text
    is_hash same
good_run-completed = refl

after_calls-IsSound_example :
    IsSound no_digest (after_calls no_digest good_run (initial writer limits 0))
after_calls-IsSound_example = after_calls-IsSound no_digest writer limits 0 good_run

after_calls_earned_example :
    any (wrote "write-tests") (after_calls no_digest good_run (initial writer limits 0)).trace
    ≡ true
after_calls_earned_example =
    after_calls_earned no_digest writer limits 0 good_run (inl good_run-completed)

abbrev idle_run : List Event
idle_run = at_time 1 (tool_call true) ∷ at_time 2 (tool_call false) ∷ []

idle_run-calls : All (IsToolCall 0) idle_run
idle_run-calls = (
  record { trusted = refl; timed = refl; called = refl },
  (record { trusted = refl; timed = refl; called = refl }, tt),
)

two : 2 ≤ length idle_run
two = omega arith

one : 1 ≤ length idle_run
one = omega arith

tool_calls-end_example :
    (after_calls no_digest (map observe_call idle_run) (initial writer limits 0)).state
    ≡ terminal_failure_observed
tool_calls-end_example = tool_calls-end no_digest writer limits 0 idle_run idle_run-calls one two
