-- ===== src/Lifecycle/Closable.antt =====
-- From which states a member can still be closed by `assertLifecycleTransition`.
use issue_orchestration.Prelude.{
  String, ◌≡◌, ◌≢◌, ◌↔◌, refl, sym, subst, List, [], ◌∷◌, ok, includes,
}
use issue_orchestration.Lifecycle.Definitions.{
  State, discovered, acceptance_frozen, test_contract_planning, test_contract_frozen, implementing,
  candidate_green, behavior_green, ui_adjudicating, ux_acceptance, ux_accepted, documenting,
  documentation_green, delivery_ready, delivering, cleaning, closed, terminal, next,
}
use issue_orchestration.Lifecycle.Names.{state_name, state_of, assert_lifecycle_transition}
use issue_orchestration.Lifecycle.Routes.{Route-terminal}
use issue_orchestration.Lifecycle.Paths.{walk, walk-Trace, state_name-injective}

abbrev from_candidate_green : List String
from_candidate_green =
    "behavior-green" ∷ "delivery-ready" ∷ "delivering" ∷ "cleaning" ∷ "closed" ∷ []

-- A way to `closed`, the state itself left out.
abbrev way : State → List String
way discovered =
    "acceptance-frozen" ∷ "test-contract-planning" ∷ "test-contract-frozen" ∷ "implementing"
    ∷ "candidate-green" ∷ from_candidate_green
way acceptance_frozen =
    "test-contract-planning" ∷ "test-contract-frozen" ∷ "implementing" ∷ "candidate-green"
    ∷ from_candidate_green
way test_contract_planning =
    "test-contract-frozen" ∷ "implementing" ∷ "candidate-green" ∷ from_candidate_green
way test_contract_frozen = "implementing" ∷ "candidate-green" ∷ from_candidate_green
way implementing = "candidate-green" ∷ from_candidate_green
way candidate_green = from_candidate_green
way behavior_green = "delivery-ready" ∷ "delivering" ∷ "cleaning" ∷ "closed" ∷ []
way ui_adjudicating =
    "ux-acceptance" ∷ "ux-accepted" ∷ "delivery-ready" ∷ "delivering" ∷ "cleaning" ∷ "closed" ∷ []
way ux_acceptance = "ux-accepted" ∷ "delivery-ready" ∷ "delivering" ∷ "cleaning" ∷ "closed" ∷ []
way ux_accepted = "delivery-ready" ∷ "delivering" ∷ "cleaning" ∷ "closed" ∷ []
way documenting =
    "documentation-green" ∷ "delivery-ready" ∷ "delivering" ∷ "cleaning" ∷ "closed" ∷ []
way documentation_green = "delivery-ready" ∷ "delivering" ∷ "cleaning" ∷ "closed" ∷ []
way delivery_ready = "delivering" ∷ "cleaning" ∷ "closed" ∷ []
way delivering = "cleaning" ∷ "closed" ∷ []
way cleaning = "closed" ∷ []
way closed = []
way terminal = []

way-walks : (s : State) → s ≢ terminal → walk (state_name s) (way s) ≡ ok "closed"
unfolding walk assert_lifecycle_transition state_name state_of includes next
way-walks terminal other = absurd (other refl)
way-walks discovered other = refl
way-walks _ other = refl

terminal_stays : (names : List String) → ¬ walk (state_name terminal) names ≡ ok "closed"
unfolding state_name
terminal_stays names h =
    let trace = walk-Trace terminal names h in
    let ended = state_name-injective trace.end closed (sym trace.ends) in
    cc (Route-terminal trace.route refl, ended)

-- From a state some sequence of transitions that `assertLifecycleTransition` lets through ends at
-- `closed` exactly when the state is not `terminal`.
pub closable :
    (s : State)
    → ((names : List String) × (walk (state_name s) names ≡ ok "closed")) ↔ (s ≢ terminal)
closable s = (
  λ found. λ e.
      terminal_stays found.0 (subst (λ v. walk (state_name v) found.0 ≡ ok "closed") e found.1),
  λ other. (way s, way-walks s other),
)
