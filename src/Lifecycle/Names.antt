-- ===== src/Lifecycle/Names.antt =====
-- State names, `lifecycleDefinition`, `assertLifecycleTransition` and the action rules.
use issue_orchestration.Prelude.{
  String, Option, none, some, List, [], ◌∷◌, map, ◌==◌, includes, find, if◌then◌else◌, Result, ok,
  err,
}
use issue_orchestration.Lifecycle.Definitions.{
  State, discovered, acceptance_frozen, test_contract_planning, test_contract_frozen, implementing,
  candidate_green, behavior_green, ui_adjudicating, ux_acceptance, ux_accepted, documenting,
  documentation_green, delivery_ready, delivering, cleaning, closed, terminal, required_receipts,
  allowed_receipts, next,
}

-- The key of a state in `definitions`.
unfoldable pub state_name : State → String
state_name discovered = "discovered"
state_name acceptance_frozen = "acceptance-frozen"
state_name test_contract_planning = "test-contract-planning"
state_name test_contract_frozen = "test-contract-frozen"
state_name implementing = "implementing"
state_name candidate_green = "candidate-green"
state_name behavior_green = "behavior-green"
state_name ui_adjudicating = "ui-adjudicating"
state_name ux_acceptance = "ux-acceptance"
state_name ux_accepted = "ux-accepted"
state_name documenting = "documenting"
state_name documentation_green = "documentation-green"
state_name delivery_ready = "delivery-ready"
state_name delivering = "delivering"
state_name cleaning = "cleaning"
state_name closed = "closed"
state_name terminal = "terminal"

-- LIFECYCLE_STATES, in the order of `definitions`.
unfoldable pub lifecycle_states : List State
lifecycle_states =
    discovered ∷ acceptance_frozen ∷ test_contract_planning ∷ test_contract_frozen ∷ implementing
    ∷ candidate_green ∷ behavior_green ∷ ui_adjudicating ∷ ux_acceptance ∷ ux_accepted ∷ documenting
    ∷ documentation_green ∷ delivery_ready ∷ delivering ∷ cleaning ∷ closed ∷ terminal ∷ []

-- The state that a key names.
unfoldable pub state_of : String → Option State
unfolding find state_name lifecycle_states
state_of name = find (λ s. state_name s == name) lifecycle_states

pub record Definition : Type 0 where
  pub required : List String
  pub allowed : List String
  pub successors : List String

-- lifecycleDefinition: `null` is `none`.
unfoldable pub lifecycle_definition : String → Option Definition
lifecycle_definition name = elim (state_of name) [
  | none ↦ none
  | some s ↦ some (record {
    required = required_receipts s;
    allowed = allowed_receipts s;
    successors = map state_name (next s);
  })
]

pub data Code : Type 0 where
  lifecycle_transition_forbidden : Code

-- assertLifecycleTransition: the transition, or the error thrown.
unfoldable pub assert_lifecycle_transition : String → String → Result Code (String × String)
unfolding lifecycle_definition
assert_lifecycle_transition from_state to_state = elim (lifecycle_definition from_state) [
  | none ↦ err lifecycle_transition_forbidden
  | some d ↦
      if includes d.successors to_state
      then ok (from_state, to_state)
      else err lifecycle_transition_forbidden
]

-- The value under a key of an object, if it has the key.
unfoldable pub own {ℓ} : {V : Type ℓ} → List (String × V) → String → Option V
own [] key = none
own ((k, v) ∷ entries) key = if k == key then some v else own entries key

-- LIFECYCLE_ACTION_RULES, where `null` is `none`.
unfoldable pub lifecycle_action_rules : List (String × Option String)
lifecycle_action_rules =
    ("none", some "request-semantic-proposal")
    ∷ ("discovered", some "compile-acceptance-contract")
    ∷ ("acceptance-frozen", some "request-test-contract-planning")
    ∷ ("test-contract-planning", some "request-test-contract-planning")
    ∷ ("test-contracting", some "dispatch-test-contract-writer")
    ∷ ("test-contract-frozen", some "dispatch-implementation-writer")
    ∷ ("implementing", some "dispatch-implementation-writer")
    ∷ ("implementing-self-testing", some "dispatch-implementation-writer")
    ∷ ("candidate-green", some "dispatch-behavior-verifier")
    ∷ ("independent-verifying", some "dispatch-behavior-verifier")
    ∷ ("behavior-green", some "request-ui-adjudication")
    ∷ ("ui-adjudicating", some "request-ui-adjudication")
    ∷ ("ux-acceptance", some "dispatch-ux-acceptance-verifier")
    ∷ ("ux-accepted", some "dispatch-documentation-writer")
    ∷ ("documenting", some "dispatch-documentation-writer")
    ∷ ("documentation-green", some "deliver-acceptance-group")
    ∷ ("delivery-ready", some "deliver-acceptance-group")
    ∷ ("delivering", some "deliver-acceptance-group")
    ∷ ("cleaning", some "cleanup-node-resources")
    ∷ ("closed", none)
    ∷ ("terminal", some "terminalize-node")
    ∷ ("quarantined", some "terminalize-node")
    ∷ []

-- lifecycleActionRule: `null`, for a closed member or an unknown name, is `none`.
unfoldable pub lifecycle_action_rule : String → Option String
unfolding own lifecycle_action_rules
lifecycle_action_rule name = elim (own lifecycle_action_rules name) [
  | none ↦ none
  | some rule ↦ rule
]
