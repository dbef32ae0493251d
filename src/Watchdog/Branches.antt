-- ===== src/Watchdog/Branches.antt =====
-- The branches of `observe` keep what has been persisted and cancelled in step with the state.
use issue_orchestration.Prelude.{
  ℕ, String, Bool, true, false, Option, some, none, List, not, ◌&&◌, ◌||◌, is_text, is_hash,
  includes, ◌≡◌, refl, arith, same, if-both, if◌then◌else◌,
}
use issue_orchestration.Watchdog.Definitions.{
  State, Event, Command, Watchdog, is_terminal, first_action_mismatch, unexpected_command,
  invalid_command_process, invalid_command_heartbeat, invalid_checkpoint, invalid_terminal_receipt,
  productive, is_process,
}
use issue_orchestration.Watchdog.Calls.{
  observe_write, observe_start, observe_heartbeat, observe_checkpoint, observe_terminal, Outcome,
  started, beat,
}
use issue_orchestration.Watchdog.States.{
  Open, Matches, IsSound, matched-Open, checkpointed-IsSound, ended-IsSound, changed, changed-Open,
  changed-Matches, set-IsSound, cancelled,
}

module _ (digest : List Event → String) where
  -- The branches of `observe`.
  abbrev pub Answers : Outcome → Type 0
  Answers o = IsSound digest o.0

  pub written-IsSound :
      (w : Watchdog)
      → Open w
      → IsSound digest (record w {
        first_action_verified = true;
        first_artifact_verified = true;
        state = productive;
      })
  written-IsSound w o = record {
    matches = (
      record {
        status = o.status;
        reason = o.reason;
        persisted = o.persisted;
        cancellations = o.cancellations;
        receipts = o.receipts;
        verified = refl;
      },
      refl,
    );
  }

  pub write-IsSound :
      (action path evidence : Option String) (w : Watchdog)
      → is_terminal w.state ≡ false
      → IsSound digest w
      → IsSound digest (observe_write digest action path evidence w).0
  unfolding observe_write
  write-IsSound action path evidence w h s =
      if-both Answers
        (not w.first_action_verified && not (same action (some w.binding.first_required_action))) _
        _ (λ e. cancelled digest first_action_mismatch w h s)
        λ e.
          if-both Answers (not (is_text path)) _ _ (λ f. s)
            λ f.
              if-both Answers (not (is_hash evidence)) _ _ (λ g. s)
                λ g. written-IsSound w (matched-Open digest w w.state h s.matches)

  pub started-IsSound :
      (command : String) (id : Option ℕ) (at : ℕ) (w : Watchdog)
      → is_terminal w.state ≡ false
      → IsSound digest w
      → IsSound digest (started digest command id at w)
  started-IsSound command none at w h s = s
  started-IsSound command (some id) at w h s = set-IsSound digest _ w h s

  pub start-IsSound :
      (command : String) (id : Option ℕ) (at : ℕ) (w : Watchdog)
      → is_terminal w.state ≡ false
      → IsSound digest w
      → IsSound digest (observe_start digest command id at w).0
  unfolding observe_start
  start-IsSound command id at w h s =
      if-both Answers (not (includes w.binding.required_commands command)) _ _
        (λ e. cancelled digest unexpected_command w h s)
        λ e.
          if-both Answers (not (is_process id)) _ _
            (λ f. cancelled digest invalid_command_process w h s)
            λ f. started-IsSound command id at w h s

  -- A heartbeat leaves the state that the artifact has given.
  pub alive-Matches :
      (w : Watchdog) (cs : List Command) (s : State) (b : Bool)
      → w.first_artifact_verified ≡ b
      → is_terminal s ≡ false
      → Matches digest w s
      → IsSound digest (record w { active_commands = cs; state = if b then productive else s })
  unfolding changed
  alive-Matches w cs s true e h m = record {
    matches = (changed-Open digest w w.trace cs _ _ productive (matched-Open digest w s h m), e);
  }
  alive-Matches w cs s false e h m = record {
    matches = changed-Matches digest w w.trace cs _ _ s h m;
  }

  pub beat-IsSound :
      (at : ℕ) (c : Option Command) (w : Watchdog)
      → is_terminal w.state ≡ false
      → IsSound digest w
      → IsSound digest (beat digest at c w).0
  beat-IsSound at none w h s = cancelled digest invalid_command_heartbeat w h s
  beat-IsSound at (some c) w h s =
      alive-Matches w _ w.state w.first_artifact_verified refl h s.matches

  pub heartbeat-IsSound :
      (id : Option ℕ) (alive : Bool) (lease : Option String) (at : ℕ) (w : Watchdog)
      → is_terminal w.state ≡ false
      → IsSound digest w
      → IsSound digest (observe_heartbeat digest id alive lease at w).0
  unfolding observe_heartbeat
  heartbeat-IsSound id alive lease at w h s =
      if-both Answers (not alive || not (same lease (some w.binding.lease_digest))) _ _
        (λ e. cancelled digest invalid_command_heartbeat w h s) λ e. beat-IsSound at _ w h s

  pub checkpoint-IsSound :
      (valid released : Bool) (checkpoint continuation : Option String) (w : Watchdog)
      → is_terminal w.state ≡ false
      → IsSound digest w
      → IsSound digest (observe_checkpoint digest valid released checkpoint continuation w).0
  unfolding observe_checkpoint
  checkpoint-IsSound valid released checkpoint continuation w h s =
      let o = matched-Open digest w w.state h s.matches in
      if-both Answers (not w.first_artifact_verified || not valid || not released) _ _
        (λ e. cancelled digest invalid_checkpoint w h s)
        λ e.
          if-both Answers (not (is_hash checkpoint)) _ _ (λ f. s)
            λ f.
              if-both Answers (not (is_hash continuation)) _ _ (λ g. s)
                λ g. checkpointed-IsSound digest w o (ground (arith, e))

  pub terminal-IsSound :
      (status receipt : Option String) (w : Watchdog)
      → is_terminal w.state ≡ false
      → IsSound digest w
      → IsSound digest (observe_terminal digest status receipt w).0
  unfolding observe_terminal
  terminal-IsSound status receipt w h s =
      let o = matched-Open digest w w.state h s.matches in
      if-both Answers
        (not (same status (some "completed"))
          || not w.first_action_verified
          || not w.first_artifact_verified)
        _ _ (λ e. cancelled digest invalid_terminal_receipt w h s)
        λ e.
          if-both Answers (not (is_hash receipt)) _ _ (λ f. s)
            λ f. ended-IsSound digest w o (ground (arith, e))
