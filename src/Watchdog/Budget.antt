-- ===== src/Watchdog/Budget.antt =====
-- The limit on tool calls without an artifact ends a run.
use issue_orchestration.Prelude.{
  ℕ, ◌+◌, ◌-◌, ◌≤◌, String, Bool, true, false, Option, some, none, List, [], ◌∷◌, ◌≡◌, refl, arith,
  All, map, length, ltb, leb, ◌⊎◌, inl, inr, Bool-cases, if◌then◌else◌, ◌<◌, ap, sym, subst, ◌∙◌,
}
use issue_orchestration.Watchdog.Definitions.{
  Reason, Body, Event, Watchdog, Binding, Budgets, is_terminal, recorded, counted, initial,
  tool_call, terminal_failure_observed, read_budget_exceeded, artifact_budget_exceeded,
  artifact_time_budget_exceeded, invalid_event_time, watchdog_event_time,
}
use issue_orchestration.Watchdog.Calls.{
  observe_call, persist_once, cancel, limited, enforce_online_budgets, observe_body,
  observe_trusted, observe_timed, observe, call, after_calls, throws,
}

abbrev is_tool_call : Body → Bool
is_tool_call (tool_call only) = true
is_tool_call _ = false

abbrev in_time : ℕ → Option ℕ → Bool
in_time started none = false
in_time started (some at) = leb started at

-- A trusted tool call whose time is not before the start.
pub record IsToolCall (started : ℕ) (e : Event) : Type 0 where
  pub trusted : e.trusted ≡ true
  pub timed : in_time started e.at_ms ≡ true
  pub called : is_tool_call e.body ≡ true

-- The run goes on below its limit, one call later.
record Waits (w w' : Watchdog) : Type 0 where
  running : is_terminal w'.state ≡ false
  artifact : w'.first_artifact_verified ≡ false
  started : w'.started_at_ms ≡ w.started_at_ms
  limits : w'.budgets ≡ w.budgets
  counted : w'.no_artifact_tool_calls ≡ w.no_artifact_tool_calls + 1
  below : leb w.budgets.max_no_artifact_tool_calls (w.no_artifact_tool_calls + 1) ≡ false

module _ (digest : List Event → String) where
  cancel-state :
      (r : Reason) (w : Watchdog)
      → is_terminal w.state ≡ false
      → (cancel digest r w).state ≡ terminal_failure_observed
  unfolding cancel persist_once
  cancel-state r w h = rw h (elim (Bool-cases w.persisted) [ inl e ↦ simp (e) | inr e ↦ simp (e) ])

  limited-ends :
      (at : ℕ) (w : Watchdog)
      → is_terminal w.state ≡ false
      → ((limited digest at w).state ≡ terminal_failure_observed)
        ⊎ ((limited digest at w ≡ w)
            × (leb w.budgets.max_no_artifact_tool_calls w.no_artifact_tool_calls ≡ false))
  unfolding limited
  limited-ends at w h =
      elim (Bool-cases
        (ltb w.budgets.max_read_only_operations_before_checkpoint w.read_only_operations)) [
          | inl e ↦ inl (simp (e, cancel-state read_budget_exceeded w h))
          | inr e ↦
              elim (Bool-cases
                (leb w.budgets.max_no_artifact_tool_calls w.no_artifact_tool_calls)) [
                  | inl f ↦ inl (simp (e, f, cancel-state artifact_budget_exceeded w h))
                  | inr f ↦
                      elim (Bool-cases
                        (ltb w.budgets.max_no_artifact_active_ms (at - w.started_at_ms))) [
                          | inl g ↦
                              inl (simp (e, f, g, cancel-state artifact_time_budget_exceeded w h))
                          | inr g ↦ inr (simp (e, f, g), f)
                        ]
                ]
        ]

  tool-of : (b : Body) → is_tool_call b ≡ true → (only : Bool) × (b ≡ tool_call only)
  tool-of (tool_call only) h = (only, refl)
  tool-of _ h = cc

  -- The watchdog after the counting of one tool call.
  counts : Event → Bool → Watchdog → Watchdog
  counts e only w = counted (tool_call only) (recorded e w)

  enforced-counts :
      (at : ℕ) (e : Event) (only : Bool) (w : Watchdog)
      → w.first_artifact_verified ≡ false
      → enforce_online_budgets digest at (tool_call only) (recorded e w)
        ≡ limited digest at (counts e only w)
  unfolding enforce_online_budgets counts recorded
  enforced-counts at e only w a = simp (a)

  waits :
      (e : Event) (only : Bool) (w : Watchdog)
      → is_terminal w.state ≡ false
      → w.first_artifact_verified ≡ false
      → leb w.budgets.max_no_artifact_tool_calls (w.no_artifact_tool_calls + 1) ≡ false
      → Waits w (counts e only w)
  unfolding counts recorded counted
  waits e only w h a below = record {
    running = h;
    artifact = a;
    started = refl;
    limits = refl;
    counted = refl;
    below = below;
  }

  trusted-limited :
      (at : ℕ) (e : Event) (only : Bool) (w : Watchdog)
      → e.body ≡ tool_call only
      → w.first_artifact_verified ≡ false
      → (observe_trusted digest at e w).0 ≡ limited digest at (counts e only w)
  unfolding observe_trusted observe_body
  trusted-limited at e only w c a =
      let n = enforced-counts at e only w a in
      elim (Bool-cases (is_terminal (limited digest at (counts e only w)).state)) [
        | inl t ↦ simp (c, n, t)
        | inr t ↦ simp (c, n, t)
      ]

  -- One tool call ends the run or is counted.
  Ends : Watchdog → Watchdog → Type 0
  Ends w w' = (w'.state ≡ terminal_failure_observed) ⊎ Waits w w'

  limited-Ends :
      (at : ℕ) (e : Event) (only : Bool) (w : Watchdog)
      → is_terminal w.state ≡ false
      → w.first_artifact_verified ≡ false
      → Ends w (limited digest at (counts e only w))
  unfolding Ends
  limited-Ends at e only w h a =
      let running : is_terminal (counts e only w).state ≡ false =
        unfold counts recorded counted in h in
      elim (limited-ends at (counts e only w) running) [
        | inl s ↦ inl s
        | inr (same, below) ↦ inr (
            subst (Waits w) (sym same)
              (waits e only w h a (unfold counts recorded counted in below)))
      ]

  timed-Ends :
      (at : Option ℕ) (e : Event) (w : Watchdog)
      → in_time w.started_at_ms at ≡ true
      → is_tool_call e.body ≡ true
      → is_terminal w.state ≡ false
      → w.first_artifact_verified ≡ false
      → Ends w (observe_timed digest at e w).0
  unfolding observe_timed
  timed-Ends none e w i c h a = cc
  timed-Ends (some at) e w i c h a =
      let (only, same) = tool-of e.body c in
      let early : ltb at w.started_at_ms ≡ false = ground arith in
      let o : (if ltb at w.started_at_ms
            then throws (cancel digest invalid_event_time w) watchdog_event_time
            else observe_trusted digest at e w).0
          ≡ limited digest at (counts e only w) =
        simp (early, trusted-limited at e only w same a) in
      subst (Ends w) (sym o) (limited-Ends at e only w h a)

  observed-Ends :
      (e : Event) (w : Watchdog)
      → IsToolCall w.started_at_ms e
      → is_terminal w.state ≡ false
      → w.first_artifact_verified ≡ false
      → Ends w (observe digest e w).0
  unfolding observe
  observed-Ends e w t h a =
      let o : observe digest e w ≡ observe_timed digest e.at_ms e w = simp (h, t.trusted) in
      subst (λ p. Ends w p.0) (sym o) (timed-Ends e.at_ms e w t.timed t.called h a)

  -- A run that has ended stays as it is.
  observed-ended :
      (es : List Event) (w : Watchdog)
      → is_terminal w.state ≡ true
      → after_calls digest (map observe_call es) w ≡ w
  unfolding after_calls call observe
  observed-ended [] w h = refl
  observed-ended (e ∷ es) w h =
      let same : (observe digest e w).0 ≡ w = simp h in
      ap (after_calls digest (map observe_call es)) same ∙ observed-ended es w h

  calls-end :
      (es : List Event) (w : Watchdog)
      → All (IsToolCall w.started_at_ms) es
      → is_terminal w.state ≡ false
      → w.first_artifact_verified ≡ false
      → 1 ≤ length es
      → w.budgets.max_no_artifact_tool_calls ≤ w.no_artifact_tool_calls + length es
      → (after_calls digest (map observe_call es) w).state ≡ terminal_failure_observed
  unfolding after_calls call Ends
  calls-end [] w t h a some_calls enough = absurd (omega arith)
  calls-end (e ∷ es) w t h a some_calls enough =
      let w' = (observe digest e w).0 in
      elim (observed-Ends e w t.0 h a) [
        | inl s ↦ ap (λ x. x.state) (observed-ended es w' (ap is_terminal s)) ∙ s
        | inr k ↦
            let below : w.no_artifact_tool_calls + 1 < w.budgets.max_no_artifact_tool_calls =
              ground (arith, k.below) in
            let more : 1 ≤ length es = omega arith in
            let left : w'.budgets.max_no_artifact_tool_calls
                ≤ w'.no_artifact_tool_calls + length es =
              rw k.limits (rw k.counted (omega arith)) in
            calls-end es w' (subst (λ s. All (IsToolCall s) es) (sym k.started) t.1) k.running
              k.artifact more left
      ]

  -- A new watchdog that is given nothing but tool calls, trusted and in time, at least one and at
  -- least as many as its limit of tool calls without an artifact, ends in failure.
  pub tool_calls-end :
      (b : Binding) (limits : Budgets) (since : ℕ) (es : List Event)
      → All (IsToolCall since) es
      → 1 ≤ length es
      → limits.max_no_artifact_tool_calls ≤ length es
      → (after_calls digest (map observe_call es) (initial b limits since)).state
        ≡ terminal_failure_observed
  unfolding initial
  tool_calls-end b limits since es t some_calls enough =
      calls-end es (initial b limits since) t refl refl some_calls (omega (arith, enough))
