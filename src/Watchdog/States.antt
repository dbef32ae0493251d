-- ===== src/Watchdog/States.antt =====
-- What the watchdog has persisted and cancelled in each state, and the steps that keep it so.
use issue_orchestration.Prelude.{
  ℕ, String, true, false, some, none, List, [], ◌∷◌, ◌++◌, ◌-◌, ltb, leb, ◌≡◌, refl, sym, ap, subst,
  if-both,
}
use issue_orchestration.Watchdog.Definitions.{
  Reason, State, Status, Body, Event, Command, Watchdog, is_terminal, recorded, counted,
  status_checkpoint_received, status_completed, status_terminal_failure, watching_first_action,
  read_budget_exceeded, artifact_budget_exceeded, artifact_time_budget_exceeded, tool_call,
  productive, checkpoint_received, completed, terminal_failure_observed,
}
use issue_orchestration.Watchdog.Calls.{
  current_receipt, persist_once, cancel, limited, enforce_online_budgets,
}

-- Nothing has been persisted or cancelled.
pub record Open (w : Watchdog) : Type 0 where
  pub status : w.terminal_status ≡ none
  pub reason : w.cancellation_reason ≡ none
  pub persisted : w.persisted ≡ false
  pub cancellations : w.cancellations ≡ []
  pub receipts : w.receipts ≡ []
  pub verified : w.first_action_verified ≡ w.first_artifact_verified

-- The receipt of the current state, and no other, has been persisted.
pub record Closed (digest : List Event → String) (w : Watchdog) (s : Status) : Type 0 where
  pub status : w.terminal_status ≡ some s
  pub persisted : w.persisted ≡ true
  pub receipts : w.receipts ≡ current_receipt digest w ∷ []
  pub verified : w.first_action_verified ≡ w.first_artifact_verified

-- The run was cancelled once, for the reason that the receipt gives.
pub record Cancelled (w : Watchdog) : Type 0 where
  pub reason : Reason
  pub given : w.cancellation_reason ≡ some reason
  pub once : w.cancellations ≡ reason ∷ []

pub record Kept (w : Watchdog) : Type 0 where
  pub given : w.cancellation_reason ≡ none
  pub never : w.cancellations ≡ []
  pub artifact : w.first_artifact_verified ≡ true

abbrev pub Matches : (List Event → String) → Watchdog → State → Type 0
Matches digest w watching_first_action = Open w × (w.first_artifact_verified ≡ false)
Matches digest w productive = Open w × (w.first_artifact_verified ≡ true)
Matches digest w checkpoint_received = Closed digest w status_checkpoint_received × Kept w
Matches digest w completed = Closed digest w status_completed × Kept w
Matches digest w terminal_failure_observed = Closed digest w status_terminal_failure × Cancelled w

pub record IsSound (digest : List Event → String) (w : Watchdog) : Type 0 where
  pub matches : Matches digest w w.state

module _ (digest : List Event → String) where
  pub matched-Open :
      (w : Watchdog) (s : State) → is_terminal s ≡ false → Matches digest w s → Open w
  matched-Open w watching_first_action h m = m.0
  matched-Open w productive h m = m.0
  matched-Open w checkpoint_received h m = cc
  matched-Open w completed h m = cc
  matched-Open w terminal_failure_observed h m = cc

  -- Cancelling a run that has not ended.
  pub cancel-IsSound :
      (r : Reason) (w : Watchdog)
      → is_terminal w.state ≡ false
      → Open w
      → IsSound digest (cancel digest r w)
  unfolding cancel persist_once current_receipt
  cancel-IsSound r w h o = rw h (
      rw o.persisted (record {
        matches = (
          record {
            status = refl;
            persisted = refl;
            receipts = rw o.receipts refl;
            verified = o.verified;
          },
          record { reason = r; given = refl; once = ap (λ xs. xs ++ r ∷ []) o.cancellations },
        );
      }))

  -- The receipt of a run that ends well.
  pub finished-Closed :
      (w : Watchdog) (st : State) (s : Status)
      → Open w
      → Closed digest (persist_once digest (record w { state = st; terminal_status = some s })) s
  unfolding persist_once current_receipt
  finished-Closed w st s o = rw o.persisted (record {
    status = refl;
    persisted = refl;
    receipts = rw o.receipts refl;
    verified = o.verified;
  })

  pub finished-Kept :
      (w : Watchdog) (st : State) (s : Status)
      → Open w
      → w.first_artifact_verified ≡ true
      → Kept (persist_once digest (record w { state = st; terminal_status = some s }))
  unfolding persist_once
  finished-Kept w st s o a =
      rw o.persisted (record { given = o.reason; never = o.cancellations; artifact = a })

  pub IsSound-at : (w : Watchdog) (s : State) → w.state ≡ s → Matches digest w s → IsSound digest w
  IsSound-at w s e m = record { matches = subst (Matches digest w) (sym e) m }

  pub checkpointed-IsSound :
      (w : Watchdog)
      → Open w
      → w.first_artifact_verified ≡ true
      → IsSound digest (
          persist_once digest (record w {
            state = checkpoint_received;
            terminal_status = some status_checkpoint_received;
          }))
  checkpointed-IsSound w o a =
      let e : (persist_once digest (record w {
        state = checkpoint_received;
        terminal_status = some status_checkpoint_received;
      })).state
          ≡ checkpoint_received =
        unfold persist_once in rw o.persisted refl in
      IsSound-at _ checkpoint_received e (
        finished-Closed w checkpoint_received status_checkpoint_received o,
        finished-Kept w checkpoint_received status_checkpoint_received o a,
      )

  pub ended-IsSound :
      (w : Watchdog)
      → Open w
      → w.first_artifact_verified ≡ true
      → IsSound digest (
          persist_once digest
            (record w { state = completed; terminal_status = some status_completed }))
  ended-IsSound w o a =
      let e : (persist_once digest
            (record w { state = completed; terminal_status = some status_completed })).state
          ≡ completed =
        unfold persist_once in rw o.persisted refl in
      IsSound-at _ completed e (
        finished-Closed w completed status_completed o,
        finished-Kept w completed status_completed o a,
      )

  -- What leaves the state and the persisted receipts alone.
  unfoldable pub changed : Watchdog → List Event → List Command → ℕ → ℕ → State → Watchdog
  changed w t cs m n s = record w {
    state = s;
    trace = t;
    active_commands = cs;
    read_only_operations = m;
    no_artifact_tool_calls = n;
  }

  pub changed-Open :
      (w : Watchdog) (t : List Event) (cs : List Command) (m n : ℕ) (s : State)
      → Open w
      → Open (changed w t cs m n s)
  unfolding changed
  changed-Open w t cs m n s o = record {
    status = o.status;
    reason = o.reason;
    persisted = o.persisted;
    cancellations = o.cancellations;
    receipts = o.receipts;
    verified = o.verified;
  }

  pub changed-Matches :
      (w : Watchdog) (t : List Event) (cs : List Command) (m n : ℕ) (s : State)
      → is_terminal s ≡ false
      → Matches digest w s
      → Matches digest (changed w t cs m n s) s
  unfolding changed
  changed-Matches w t cs m n watching_first_action h o = (changed-Open w t cs m n _ o.0, o.1)
  changed-Matches w t cs m n productive h o = (changed-Open w t cs m n _ o.0, o.1)
  changed-Matches w t cs m n checkpoint_received h o = cc
  changed-Matches w t cs m n completed h o = cc
  changed-Matches w t cs m n terminal_failure_observed h o = cc

  pub recorded-IsSound :
      (e : Event) (w : Watchdog)
      → is_terminal w.state ≡ false
      → IsSound digest w
      → IsSound digest (recorded e w)
  unfolding changed recorded
  recorded-IsSound e w h s = record {
    matches =
        changed-Matches w (w.trace ++ e ∷ []) w.active_commands w.read_only_operations
          w.no_artifact_tool_calls w.state h s.matches;
  }

  pub set-IsSound :
      (cs : List Command) (w : Watchdog)
      → is_terminal w.state ≡ false
      → IsSound digest w
      → IsSound digest (record w { active_commands = cs })
  unfolding changed
  set-IsSound cs w h s = record { matches = changed-Matches w w.trace cs _ _ w.state h s.matches }

  pub counted-IsSound :
      (b : Body) (w : Watchdog)
      → is_terminal w.state ≡ false
      → IsSound digest w
      → IsSound digest (counted b w)
  unfolding changed counted
  counted-IsSound (tool_call only) w h s = record {
    matches = changed-Matches w w.trace w.active_commands _ _ w.state h s.matches;
  }
  counted-IsSound _ w h s = s

  pub counted-state : (b : Body) (w : Watchdog) → (counted b w).state ≡ w.state
  unfolding counted
  counted-state (tool_call only) w = refl
  counted-state _ w = refl

  pub cancelled :
      (r : Reason) (w : Watchdog)
      → is_terminal w.state ≡ false
      → IsSound digest w
      → IsSound digest (cancel digest r w)
  cancelled r w h s = cancel-IsSound r w h (matched-Open w w.state h s.matches)

  pub limited-IsSound :
      (at : ℕ) (w : Watchdog)
      → is_terminal w.state ≡ false
      → IsSound digest w
      → IsSound digest (limited digest at w)
  unfolding limited
  limited-IsSound at w h s =
      if-both (IsSound digest)
        (ltb w.budgets.max_read_only_operations_before_checkpoint w.read_only_operations) _ _
        (λ e. cancelled read_budget_exceeded w h s)
        λ e.
          if-both (IsSound digest)
            (leb w.budgets.max_no_artifact_tool_calls w.no_artifact_tool_calls) _ _
            (λ f. cancelled artifact_budget_exceeded w h s)
            λ f.
              if-both (IsSound digest)
                (ltb w.budgets.max_no_artifact_active_ms (at - w.started_at_ms)) _ _
                (λ g. cancelled artifact_time_budget_exceeded w h s) λ g. s

  pub enforced-IsSound :
      (at : ℕ) (b : Body) (w : Watchdog)
      → is_terminal w.state ≡ false
      → IsSound digest w
      → IsSound digest (enforce_online_budgets digest at b w)
  unfolding enforce_online_budgets
  enforced-IsSound at b w h s =
      if-both (IsSound digest) w.first_artifact_verified _ _ (λ e. s)
        λ e. limited-IsSound at (counted b w) (rw (counted-state b w) h) (counted-IsSound b w h s)
