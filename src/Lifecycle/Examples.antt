-- ===== src/Lifecycle/Examples.antt =====
-- The lifecycle on concrete states.
use issue_orchestration.Prelude.{
  All, String, List, [], ◌∷◌, ◌≡◌, refl, Memᴰ, ok, length, ◌≤◌, ◌+◌, includes, none, ◌↔◌, ◌≢◌,
}
use issue_orchestration.Lifecycle.Definitions.{
  cleaning, discovered, closed, candidate_green, terminal, next,
}
use issue_orchestration.Lifecycle.Names.{
  assert_lifecycle_transition, lifecycle_action_rule, state_name, state_of,
}
use issue_orchestration.Lifecycle.Routes.{stage}
use issue_orchestration.Lifecycle.Paths.{walk, walk_bounded, closed_passes_gates}
use issue_orchestration.Lifecycle.Closable.{closable}
use issue_orchestration.Lifecycle.Demands.{Demanded, asked_for, closed_demands}
use issue_orchestration.Lifecycle.Receipts.{lifecycle_action_rule-closed}

abbrev whole_run : List String
whole_run =
    "acceptance-frozen" ∷ "test-contract-planning" ∷ "test-contract-frozen" ∷ "implementing"
    ∷ "candidate-green" ∷ "behavior-green" ∷ "documenting" ∷ "documentation-green"
    ∷ "delivery-ready" ∷ "delivering" ∷ "cleaning" ∷ "closed" ∷ []

whole_run-walks : walk "discovered" whole_run ≡ ok "closed"
unfolding walk assert_lifecycle_transition state_of includes next
whole_run-walks = refl

named_run-walks : walk (state_name discovered) whole_run ≡ ok "closed"
unfolding state_name
named_run-walks = whole_run-walks

walk_bounded_example : length whole_run + stage discovered ≤ 15
walk_bounded_example = walk_bounded discovered whole_run named_run-walks

closed_passes_gates_example :
    Memᴰ "candidate-green" whole_run
    × Memᴰ "behavior-green" whole_run
    × Memᴰ "delivering" whole_run
    × Memᴰ "cleaning" whole_run
closed_passes_gates_example = closed_passes_gates whole_run whole_run-walks

closable_example :
    ((names : List String) × (walk (state_name candidate_green) names ≡ ok "closed"))
    ↔ (candidate_green ≢ terminal)
closable_example = closable candidate_green

closed_demands_example : All (Demanded whole_run) asked_for
closed_demands_example = closed_demands whole_run whole_run-walks

lifecycle_action_rule-closed_example :
    (lifecycle_action_rule (state_name cleaning) ≡ none) ↔ (cleaning ≡ closed)
lifecycle_action_rule-closed_example = lifecycle_action_rule-closed cleaning
