-- ===== src/Lifecycle/Receipts.antt =====
-- The next action of every state.
use issue_orchestration.Prelude.{◌≡◌, ◌↔◌, refl, none}
use issue_orchestration.Lifecycle.Definitions.{State, closed}
use issue_orchestration.Lifecycle.Names.{state_name, lifecycle_action_rule}

-- Exactly the closed member has no next action.
pub lifecycle_action_rule-closed :
    (s : State) → (lifecycle_action_rule (state_name s) ≡ none) ↔ (s ≡ closed)
unfolding lifecycle_action_rule state_name
lifecycle_action_rule-closed closed = (λ e. refl, λ e. refl)
lifecycle_action_rule-closed _ = (λ e. cc, λ e. cc)
