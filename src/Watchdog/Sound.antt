-- ===== src/Watchdog/Sound.antt =====
-- The watchdog over whole runs: one receipt, and one cancellation at most.
use issue_orchestration.Prelude.{
  ℕ, String, true, false, Option, some, none, List, [], ◌∷◌, not, ltb, ◌≡◌, refl, ◌∙◌, ◌⊎◌, inl,
  inr, subst, if-both,
}
use issue_orchestration.Watchdog.Definitions.{
  Body, Event, Watchdog, Binding, Budgets, is_terminal, recorded, initial, untrusted_runtime_event,
  invalid_event_time, watchdog_failure, checkpoint_received, completed, filesystem_write,
  command_start, command_heartbeat, checkpoint_receipt, terminal_receipt,
}
use issue_orchestration.Watchdog.Calls.{
  Call, observe_call, fail_closed_call, enforce_online_budgets, observe_body, observe_trusted,
  observe_timed, observe, fail_closed, call, after_calls, started,
}
use issue_orchestration.Watchdog.States.{
  Matches, IsSound, recorded-IsSound, cancelled, enforced-IsSound,
}
use issue_orchestration.Watchdog.Branches.{
  Answers, write-IsSound, start-IsSound, heartbeat-IsSound, checkpoint-IsSound, terminal-IsSound,
}

module _ (digest : List Event → String) where
  body-IsSound :
      (at : ℕ) (b : Body) (w : Watchdog)
      → is_terminal w.state ≡ false
      → IsSound digest w
      → IsSound digest (observe_body digest at b w).0
  unfolding observe_body
  body-IsSound at (filesystem_write action path evidence) w h s =
      write-IsSound digest action path evidence w h s
  body-IsSound at (command_start command id) w h s = start-IsSound digest command id at w h s
  body-IsSound at (command_heartbeat id alive lease) w h s =
      heartbeat-IsSound digest id alive lease at w h s
  body-IsSound at (checkpoint_receipt valid released checkpoint continuation) w h s =
      checkpoint-IsSound digest valid released checkpoint continuation w h s
  body-IsSound at (terminal_receipt status receipt) w h s =
      terminal-IsSound digest status receipt w h s
  body-IsSound at _ w h s = s

  trusted-IsSound :
      (at : ℕ) (e : Event) (w : Watchdog)
      → is_terminal w.state ≡ false
      → IsSound digest w
      → IsSound digest (observe_trusted digest at e w).0
  unfolding observe_trusted
  trusted-IsSound at e w h s =
      let next = enforce_online_budgets digest at e.body (recorded e w) in
      let kept =
        enforced-IsSound digest at e.body (recorded e w) (unfold recorded in h)
          (recorded-IsSound digest e w h s) in
      if-both (Answers digest) (is_terminal next.state) _ _ (λ t. kept)
        λ t. body-IsSound at e.body next t kept

  timed-IsSound :
      (at : Option ℕ) (e : Event) (w : Watchdog)
      → is_terminal w.state ≡ false
      → IsSound digest w
      → IsSound digest (observe_timed digest at e w).0
  unfolding observe_timed
  timed-IsSound none e w h s = cancelled digest invalid_event_time w h s
  timed-IsSound (some at) e w h s =
      if-both (Answers digest) (ltb at w.started_at_ms) _ _
        (λ t. cancelled digest invalid_event_time w h s) λ t. trusted-IsSound at e w h s

  call-IsSound : (c : Call) (w : Watchdog) → IsSound digest w → IsSound digest (call digest c w).0
  unfolding call observe fail_closed recorded
  call-IsSound (observe_call e) w s =
      if-both (Answers digest) (is_terminal w.state) _ _ (λ t. s)
        λ t.
          if-both (Answers digest) (not e.trusted) _ _
            (λ u. cancelled digest untrusted_runtime_event w t s) λ u. timed-IsSound e.at_ms e w t s
  call-IsSound (fail_closed_call name message) w s =
      if-both (Answers digest) (is_terminal w.state) _ _ (λ t. s)
        λ t. cancelled digest watchdog_failure _ (t) (recorded-IsSound digest _ w t s)

  initial-IsSound :
      (b : Binding) (limits : Budgets) (started : ℕ) → IsSound digest (initial b limits started)
  unfolding initial
  initial-IsSound b limits started = record {
    matches = (
      record {
        status = refl;
        reason = refl;
        persisted = refl;
        cancellations = refl;
        receipts = refl;
        verified = refl;
      },
      refl,
    );
  }

  calls-IsSound :
      (cs : List Call) (w : Watchdog) → IsSound digest w → IsSound digest (after_calls digest cs w)
  unfolding after_calls
  calls-IsSound [] w s = s
  calls-IsSound (c ∷ cs) w s = calls-IsSound cs (call digest c w).0 (call-IsSound c w s)

  -- Whatever calls a new watchdog gets, in whatever order and however often they throw: while it
  -- runs it has persisted nothing and cancelled nothing; once it has ended it has persisted one
  -- receipt, the one of its state and outcome that later calls of `receipt` return too, and it has
  -- called `cancel` once, for the receipt's reason, if it ended in failure, and never otherwise;
  -- it ends well only with the first artifact verified.
  pub after_calls-IsSound :
      (b : Binding) (limits : Budgets) (started : ℕ) (cs : List Call)
      → IsSound digest (after_calls digest cs (initial b limits started))
  after_calls-IsSound b limits started cs =
      calls-IsSound cs (initial b limits started) (initial-IsSound b limits started)

  -- A run that has ended well has verified its first action.
  pub ended-verified :
      (w : Watchdog)
      → IsSound digest w
      → (w.state ≡ completed) ⊎ (w.state ≡ checkpoint_received)
      → w.first_action_verified ≡ true
  ended-verified w s (inl h) =
      let m = subst (Matches digest w) h s.matches in m.0.verified ∙ m.1.artifact
  ended-verified w s (inr h) =
      let m = subst (Matches digest w) h s.matches in m.0.verified ∙ m.1.artifact
