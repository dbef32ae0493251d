-- ===== src/Watchdog/Earned.antt =====
-- What the trace of a run that ends well holds.
use issue_orchestration.Prelude.{
  ℕ, String, Bool, true, false, Option, some, none, List, [], ◌∷◌, ◌≡◌, refl, sym, ap, ◌∙◌, arith,
  same, any, not, ◌&&◌, ◌⊎◌, inl, inr, is_text, is_hash, if-both, ltb, any-append, Bool-cases,
}
use issue_orchestration.Watchdog.Definitions.{
  Body, Event, Watchdog, Binding, Budgets, is_terminal, recorded, initial, filesystem_write,
  command_start, command_heartbeat, checkpoint_receipt, terminal_receipt, completed,
  checkpoint_received,
}
use issue_orchestration.Watchdog.Calls.{
  Call, Outcome, observe_call, fail_closed_call, started, enforce_online_budgets, observe_write,
  observe_body, observe_trusted, observe_timed, observe, fail_closed, call, after_calls,
}
use issue_orchestration.Watchdog.Sound.{after_calls-IsSound, ended-verified}
use issue_orchestration.Watchdog.Leaves.{
  Leaves, cancel-Leaves, enforced-Leaves, start-Leaves, heartbeat-Leaves, checkpoint-Leaves,
  terminal-Leaves,
}

-- A trusted write, with a path and the digest of its evidence, by the given action.
abbrev pub wrote_by : String → Body → Bool
wrote_by a (filesystem_write action path evidence) =
    same action (some a) && is_text path && is_hash evidence
wrote_by a _ = false

abbrev pub wrote : String → Event → Bool
wrote a e = e.trusted && wrote_by a e.body

-- The first action is verified only if the trace shows it.
record IsEarned (b : Binding) (w : Watchdog) : Type 0 where
  bound : w.binding ≡ b
  shown : w.first_action_verified ≡ true → any (wrote b.first_required_action) w.trace ≡ true

left-IsEarned : (b : Binding) (w w' : Watchdog) → Leaves w w' → IsEarned b w → IsEarned b w'
left-IsEarned b w w' l e = record {
  bound = l.binding ∙ e.bound;
  shown = λ h. rw l.trace (e.shown (sym l.action ∙ h));
}

module _ (digest : List Event → String) where
  -- The write that verifies the first action is in the trace already.
  write-IsEarned :
      (b : Binding) (action path evidence : Option String) (w : Watchdog)
      → (wrote_by b.first_required_action (filesystem_write action path evidence) ≡ true
          → any (wrote b.first_required_action) w.trace ≡ true)
      → IsEarned b w
      → IsEarned b (observe_write digest action path evidence w).0
  unfolding observe_write
  write-IsEarned b action path evidence w traced s =
      let kept = λ (w' : Watchdog) (l : Leaves w w'). left-IsEarned b w w' l s in
      if-both (λ (o : Outcome). IsEarned b o.0)
        (not w.first_action_verified && not (same action (some w.binding.first_required_action))) _
        _ (λ e. kept _ (cancel-Leaves digest _ w))
        λ e.
          if-both (λ (o : Outcome). IsEarned b o.0) (not (is_text path)) _ _ (λ f. s)
            λ f.
              if-both (λ (o : Outcome). IsEarned b o.0) (not (is_hash evidence)) _ _ (λ g. s)
                λ g. record { bound = s.bound; shown = λ h. shown_by e f g }
    where
      shown_by :
          (not w.first_action_verified && not (same action (some w.binding.first_required_action)))
            ≡ false
          → not (is_text path) ≡ false
          → not (is_hash evidence) ≡ false
          → any (wrote b.first_required_action) w.trace ≡ true
      shown_by e f g = elim (Bool-cases w.first_action_verified) [
        | inl v ↦ s.shown v
        | inr v ↦
            let same_action : same action (some b.first_required_action) ≡ true =
              ground (arith, e, v, ap (λ x. x.first_required_action) s.bound) in
            traced (ground (arith, same_action, f, g))
      ]

  body-IsEarned :
      (b : Binding) (at : ℕ) (body : Body) (w : Watchdog)
      → (wrote_by b.first_required_action body ≡ true
          → any (wrote b.first_required_action) w.trace ≡ true)
      → IsEarned b w
      → IsEarned b (observe_body digest at body w).0
  unfolding observe_body
  body-IsEarned b at (filesystem_write action path evidence) w t s =
      write-IsEarned b action path evidence w t s
  body-IsEarned b at (command_start command id) w t s =
      left-IsEarned b w _ (start-Leaves digest command id at w) s
  body-IsEarned b at (command_heartbeat id alive lease) w t s =
      left-IsEarned b w _ (heartbeat-Leaves digest id alive lease at w) s
  body-IsEarned b at (checkpoint_receipt valid released checkpoint continuation) w t s =
      left-IsEarned b w _ (checkpoint-Leaves digest valid released checkpoint continuation w) s
  body-IsEarned b at (terminal_receipt status receipt) w t s =
      left-IsEarned b w _ (terminal-Leaves digest status receipt w) s
  body-IsEarned b at _ w t s = s

  recorded-IsEarned :
      (b : Binding) (e : Event) (w : Watchdog) → IsEarned b w → IsEarned b (recorded e w)
  unfolding recorded
  recorded-IsEarned b e w s = record {
    bound = s.bound;
    shown =
        λ h. ground (arith, any-append (wrote b.first_required_action) w.trace (e ∷ []), s.shown h);
  }

  recorded-traced :
      (a : String) (e : Event) (w : Watchdog)
      → wrote a e ≡ true
      → any (wrote a) (recorded e w).trace ≡ true
  unfolding recorded any
  recorded-traced a e w h = ground (arith, any-append (wrote a) w.trace (e ∷ []), h)

  trusted-IsEarned :
      (b : Binding) (at : ℕ) (e : Event) (w : Watchdog)
      → e.trusted ≡ true
      → IsEarned b w
      → IsEarned b (observe_trusted digest at e w).0
  unfolding observe_trusted
  trusted-IsEarned b at e w t s =
      let a = b.first_required_action in
      let next = enforce_online_budgets digest at e.body (recorded e w) in
      let left = enforced-Leaves digest at e.body (recorded e w) in
      let kept = left-IsEarned b (recorded e w) next left (recorded-IsEarned b e w s) in
      if-both (λ (o : Outcome). IsEarned b o.0) (is_terminal next.state) _ _ (λ u. kept)
        λ u.
          body-IsEarned b at e.body next
            (λ h. ap (any (wrote a)) left.trace ∙ recorded-traced a e w (ground (arith, t, h))) kept

  timed-IsEarned :
      (b : Binding) (at : Option ℕ) (e : Event) (w : Watchdog)
      → e.trusted ≡ true
      → IsEarned b w
      → IsEarned b (observe_timed digest at e w).0
  unfolding observe_timed
  timed-IsEarned b none e w t s = left-IsEarned b w _ (cancel-Leaves digest _ w) s
  timed-IsEarned b (some at) e w t s =
      if-both (λ (o : Outcome). IsEarned b o.0) (ltb at w.started_at_ms) _ _
        (λ u. left-IsEarned b w _ (cancel-Leaves digest _ w) s) λ u. trusted-IsEarned b at e w t s

  call-IsEarned :
      (b : Binding) (c : Call) (w : Watchdog) → IsEarned b w → IsEarned b (call digest c w).0
  unfolding call observe fail_closed
  call-IsEarned b (observe_call e) w s =
      if-both (λ (o : Outcome). IsEarned b o.0) (is_terminal w.state) _ _ (λ t. s)
        λ t.
          if-both (λ (o : Outcome). IsEarned b o.0) (not e.trusted) _ _
            (λ u. left-IsEarned b w _ (cancel-Leaves digest _ w) s)
            λ u. timed-IsEarned b e.at_ms e w (ground (arith, u)) s
  call-IsEarned b (fail_closed_call name message) w s =
      if-both (λ (o : Outcome). IsEarned b o.0) (is_terminal w.state) _ _ (λ t. s)
        λ t. left-IsEarned b _ _ (cancel-Leaves digest _ _) (recorded-IsEarned b _ w s)

  calls-IsEarned :
      (b : Binding) (cs : List Call) (w : Watchdog)
      → IsEarned b w
      → IsEarned b (after_calls digest cs w)
  unfolding after_calls
  calls-IsEarned b [] w s = s
  calls-IsEarned b (c ∷ cs) w s = calls-IsEarned b cs (call digest c w).0 (call-IsEarned b c w s)

  initial-IsEarned : (b : Binding) (limits : Budgets) (at : ℕ) → IsEarned b (initial b limits at)
  unfolding initial
  initial-IsEarned b limits at = record { bound = refl; shown = λ v. cc }

  -- A run of calls on a new watchdog that ends with a checkpoint or as completed has a trusted
  -- write in its trace, with a path and the digest of its evidence, by the action that the binding
  -- requires first.
  pub after_calls_earned :
      (b : Binding) (limits : Budgets) (started : ℕ) (cs : List Call)
      → ((after_calls digest cs (initial b limits started)).state ≡ completed)
        ⊎ ((after_calls digest cs (initial b limits started)).state ≡ checkpoint_received)
      → any (wrote b.first_required_action) (after_calls digest cs (initial b limits started)).trace
        ≡ true
  after_calls_earned b limits started cs h =
      let w = after_calls digest cs (initial b limits started) in
      let sound = after_calls-IsSound digest b limits started cs in
      (calls-IsEarned b cs (initial b limits started) (initial-IsEarned b limits started)).shown
        (ended-verified digest w sound h)
