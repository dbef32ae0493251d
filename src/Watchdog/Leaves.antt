-- ===== src/Watchdog/Leaves.antt =====
-- The steps of the watchdog that leave its binding, its trace and its first action alone.
use issue_orchestration.Prelude.{
  ℕ, String, Bool, Option, some, none, List, ◌≡◌, refl, ◌∙◌, same, not, ◌||◌, is_hash, if-both, ltb,
  leb, ◌-◌, includes,
}
use issue_orchestration.Watchdog.Definitions.{
  Reason, State, Status, Body, Event, Command, Watchdog, is_terminal, counted, tool_call,
  is_process, active_command,
}
use issue_orchestration.Watchdog.Calls.{
  Outcome, persist_once, cancel, limited, started, beat, enforce_online_budgets, observe_start,
  observe_heartbeat, observe_checkpoint, observe_terminal,
}

-- A step that leaves the binding, the trace and the first action alone.
pub record Leaves (w w' : Watchdog) : Type 0 where
  pub binding : w'.binding ≡ w.binding
  pub trace : w'.trace ≡ w.trace
  pub action : w'.first_action_verified ≡ w.first_action_verified

pub same-Leaves : (w : Watchdog) → Leaves w w
same-Leaves w = record { binding = refl; trace = refl; action = refl }

pub chain-Leaves : (w w' w'' : Watchdog) → Leaves w w' → Leaves w' w'' → Leaves w w''
chain-Leaves w w' w'' l m = record {
  binding = m.binding ∙ l.binding;
  trace = m.trace ∙ l.trace;
  action = m.action ∙ l.action;
}

module _ (digest : List Event → String) where
  pub persist_once-Leaves : (w : Watchdog) → Leaves w (persist_once digest w)
  unfolding persist_once
  persist_once-Leaves w =
      if-both (Leaves w) w.persisted _ _ (λ e. same-Leaves w)
        λ e. record { binding = refl; trace = refl; action = refl }

  pub cancel-Leaves : (r : Reason) (w : Watchdog) → Leaves w (cancel digest r w)
  unfolding cancel persist_once
  cancel-Leaves r w =
      if-both (Leaves w) (is_terminal w.state) _ _ (λ e. same-Leaves w)
        λ e.
          if-both (Leaves w) w.persisted _ _
            (λ f. record { binding = refl; trace = refl; action = refl })
            λ f. record { binding = refl; trace = refl; action = refl }

  pub limited-Leaves : (at : ℕ) (w : Watchdog) → Leaves w (limited digest at w)
  unfolding limited
  limited-Leaves at w =
      if-both (Leaves w)
        (ltb w.budgets.max_read_only_operations_before_checkpoint w.read_only_operations) _ _
        (λ e. cancel-Leaves _ w)
        λ e.
          if-both (Leaves w) (leb w.budgets.max_no_artifact_tool_calls w.no_artifact_tool_calls) _ _
            (λ f. cancel-Leaves _ w)
            λ f.
              if-both (Leaves w) (ltb w.budgets.max_no_artifact_active_ms (at - w.started_at_ms)) _
                _ (λ g. cancel-Leaves _ w) λ g. same-Leaves w

  pub counted-Leaves : (b : Body) (w : Watchdog) → Leaves w (counted b w)
  unfolding counted
  counted-Leaves (tool_call only) w = record { binding = refl; trace = refl; action = refl }
  counted-Leaves _ w = same-Leaves w

  pub enforced-Leaves :
      (at : ℕ) (b : Body) (w : Watchdog) → Leaves w (enforce_online_budgets digest at b w)
  unfolding enforce_online_budgets
  enforced-Leaves at b w =
      if-both (Leaves w) w.first_artifact_verified _ _ (λ e. same-Leaves w)
        λ e. chain-Leaves w (counted b w) _ (counted-Leaves b w) (limited-Leaves at (counted b w))

  pub start-Leaves :
      (command : String) (id : Option ℕ) (at : ℕ) (w : Watchdog)
      → Leaves w (observe_start digest command id at w).0
  unfolding observe_start
  start-Leaves command id at w =
      if-both (λ (o : Outcome). Leaves w o.0) (not (includes w.binding.required_commands command)) _
        _ (λ e. cancel-Leaves _ w)
        λ e.
          if-both (λ (o : Outcome). Leaves w o.0) (not (is_process id)) _ _ (λ f. cancel-Leaves _ w)
            λ f. started-Leaves id
    where
      started-Leaves : (i : Option ℕ) → Leaves w (started digest command i at w)
      started-Leaves none = same-Leaves w
      started-Leaves (some i) = record { binding = refl; trace = refl; action = refl }

  pub beat-Leaves : (at : ℕ) (c : Option Command) (w : Watchdog) → Leaves w (beat digest at c w).0
  beat-Leaves at none w = cancel-Leaves _ w
  beat-Leaves at (some c) w = record { binding = refl; trace = refl; action = refl }

  pub heartbeat-Leaves :
      (id : Option ℕ) (alive : Bool) (lease : Option String) (at : ℕ) (w : Watchdog)
      → Leaves w (observe_heartbeat digest id alive lease at w).0
  unfolding observe_heartbeat
  heartbeat-Leaves id alive lease at w =
      if-both (λ (o : Outcome). Leaves w o.0)
        (not alive || not (same lease (some w.binding.lease_digest))) _ _ (λ e. cancel-Leaves _ w)
        λ e. beat-Leaves at (active_command id w.active_commands) w

  pub persisted-Leaves :
      (w : Watchdog) (s : State) (t : Status)
      → Leaves w (persist_once digest (record w { state = s; terminal_status = some t }))
  persisted-Leaves w s t =
      chain-Leaves w (record w { state = s; terminal_status = some t }) _
        (record { binding = refl; trace = refl; action = refl })
        (persist_once-Leaves (record w { state = s; terminal_status = some t }))

  pub checkpoint-Leaves :
      (valid released : Bool) (checkpoint continuation : Option String) (w : Watchdog)
      → Leaves w (observe_checkpoint digest valid released checkpoint continuation w).0
  unfolding observe_checkpoint
  checkpoint-Leaves valid released checkpoint continuation w =
      if-both (λ (o : Outcome). Leaves w o.0)
        (not w.first_artifact_verified || not valid || not released) _ _ (λ e. cancel-Leaves _ w)
        λ e.
          if-both (λ (o : Outcome). Leaves w o.0) (not (is_hash checkpoint)) _ _
            (λ f. same-Leaves w)
            λ f.
              if-both (λ (o : Outcome). Leaves w o.0) (not (is_hash continuation)) _ _
                (λ g. same-Leaves w) λ g. persisted-Leaves w _ _

  pub terminal-Leaves :
      (status receipt : Option String) (w : Watchdog)
      → Leaves w (observe_terminal digest status receipt w).0
  unfolding observe_terminal
  terminal-Leaves status receipt w =
      if-both (λ (o : Outcome). Leaves w o.0)
        (not (same status (some "completed"))
          || not w.first_action_verified
          || not w.first_artifact_verified)
        _ _ (λ e. cancel-Leaves _ w)
        λ e.
          if-both (λ (o : Outcome). Leaves w o.0) (not (is_hash receipt)) _ _ (λ f. same-Leaves w)
            λ f. persisted-Leaves w _ _
