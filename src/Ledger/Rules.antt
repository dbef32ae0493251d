-- ===== src/Ledger/Rules.antt =====
-- The table of the events that move a node or a group between its states.
use issue_orchestration.Prelude.{String, Bool, Option, List, [], ◌∷◌, ◌==◌, ◌&&◌, ◌||◌, any, find}

pub record Rule : Type 0 where
  pub event_type : String
  pub transitions : List (String × String)

abbrev rule : String → List (String × String) → Rule
rule event_type transitions = record { event_type = event_type; transitions = transitions }

-- The rules of the events of the lifecycle executors.
unfoldable pub lifecycle_rules : List Rule
lifecycle_rules =
    rule "lifecycle.semantic-proposal-recorded" (("none", "discovered") ∷ [])
    ∷ rule "lifecycle.acceptance-contract-recorded" (("discovered", "acceptance-frozen") ∷ [])
    ∷ rule "lifecycle.test-contract-planning-recorded"
        (("acceptance-frozen", "test-contracting") ∷ [])
    ∷ rule "lifecycle.test-contract-writer-recorded"
        (("test-contracting", "test-contract-frozen") ∷ [])
    ∷ rule "lifecycle.implementation-retry-recorded" (
        ("test-contract-frozen", "implementing-self-testing")
        ∷ ("implementing-self-testing", "implementing-self-testing")
        ∷ [])
    ∷ rule "lifecycle.implementation-candidate-recorded" (
        ("test-contract-frozen", "candidate-green")
        ∷ ("implementing-self-testing", "candidate-green")
        ∷ [])
    ∷ rule "lifecycle.writer-stage-failure-recorded" (
        ("test-contracting", "terminal")
        ∷ ("test-contract-frozen", "terminal")
        ∷ ("implementing-self-testing", "terminal")
        ∷ ("behavior-green", "terminal")
        ∷ ("ux-accepted", "terminal")
        ∷ [])
    ∷ rule "lifecycle.behavior-rejection-recorded"
        (("candidate-green", "implementing-self-testing") ∷ [])
    ∷ rule "lifecycle.behavior-recorded" (("candidate-green", "behavior-green") ∷ [])
    ∷ rule "lifecycle.ui-adjudication-recorded" (("behavior-green", "behavior-green") ∷ [])
    ∷ rule "lifecycle.ux-acceptance-recorded" (("behavior-green", "ux-accepted") ∷ [])
    ∷ rule "lifecycle.documentation-recorded"
        (("behavior-green", "documentation-green") ∷ ("ux-accepted", "documentation-green") ∷ [])
    ∷ rule "lifecycle.delivery-recorded" (
        ("documentation-green", "cleaning")
        ∷ ("delivery-ready", "cleaning")
        ∷ ("delivering", "cleaning")
        ∷ [])
    ∷ rule "lifecycle.cleanup-recorded" (("cleaning", "closed") ∷ [])
    ∷ rule "lifecycle.terminal-recorded" (("*", "terminal") ∷ [])
    ∷ rule "lifecycle.base-rebound" (("none", "acceptance-frozen") ∷ [])
    ∷ []

-- The statuses and the event types are the source's strings; '*' stands for any status.
unfoldable pub rules : List Rule
unfolding lifecycle_rules
rules =
    rule "node.discovered" (("none", "discovered") ∷ [])
    ∷ rule "stage.contract-frozen" (("discovered", "discovered") ∷ [])
    ∷ rule "test-contract.started" (("discovered", "test-contracting") ∷ [])
    ∷ rule "test-contract.frozen" (("test-contracting", "test-contract-frozen") ∷ [])
    ∷ rule "test-contract.disputed" (("test-contracting", "discovered") ∷ [])
    ∷ rule "implementation.started" (
        ("test-contract-frozen", "implementing-self-testing")
        ∷ ("implementing-self-testing", "implementing-self-testing")
        ∷ ("delivery-ready", "delivering")
        ∷ [])
    ∷ rule "implementation.candidate-green" (
        ("implementing-self-testing", "candidate-green")
        ∷ ("test-contract-frozen", "candidate-green")
        ∷ [])
    ∷ rule "implementation.contract-disputed"
        (("implementing-self-testing", "test-contract-frozen") ∷ [])
    ∷ rule "implementation.external-blocked" (("implementing-self-testing", "terminal") ∷ [])
    ∷ rule "implementation.resource-failed"
        (("implementing-self-testing", "test-contract-frozen") ∷ [])
    ∷ rule "decision-analysis.started" (
        ("test-contract-frozen", "decision-analyzing")
        ∷ ("implementing-self-testing", "decision-analyzing")
        ∷ [])
    ∷ rule "decision-analysis.completed"
        (("decision-analyzing", "decision-analysis-completed") ∷ [])
    ∷ rule "human-decision.required"
        (("decision-analysis-completed", "human-decision-required") ∷ [])
    ∷ rule "human-decision.recorded" (("human-decision-required", "human-decision-recorded") ∷ [])
    ∷ rule "human-decision.invalidated" (
        ("human-decision-required", "decision-analysis-completed")
        ∷ ("human-decision-recorded", "decision-analysis-completed")
        ∷ [])
    ∷ rule "contract.rebased" (("human-decision-recorded", "test-contract-frozen") ∷ [])
    ∷ rule "node.resumed" (("human-decision-recorded", "discovered") ∷ [])
    ∷ rule "independent-verification.started" (("candidate-green", "independent-verifying") ∷ [])
    ∷ rule "independent-verification.rejected"
        (("independent-verifying", "implementing-self-testing") ∷ [])
    ∷ rule "independent-verification.passed"
        (("independent-verifying", "behavior-green") ∷ ("candidate-green", "behavior-green") ∷ [])
    ∷ rule "ux-acceptance.started" (("behavior-green", "ux-acceptance") ∷ [])
    ∷ rule "ux-acceptance.rejected" (("ux-acceptance", "implementing-self-testing") ∷ [])
    ∷ rule "ux-acceptance.accepted" (("ux-acceptance", "ux-accepted") ∷ [])
    ∷ rule "documentation.started" (
        ("behavior-green", "documenting")
        ∷ ("ux-accepted", "documenting")
        ∷ ("candidate-green", "documenting")
        ∷ ("implementing-self-testing", "implementing-self-testing")
        ∷ [])
    ∷ rule "documentation.failed" (("documenting", "behavior-green") ∷ [])
    ∷ rule "documentation.passed" (
        ("documenting", "documentation-green")
        ∷ ("implementing-self-testing", "implementing-self-testing")
        ∷ [])
    ∷ rule "delivery.ready-computed" (("documentation-green", "delivery-ready") ∷ [])
    ∷ rule "delivery.started"
        (("delivery-ready", "delivering") ∷ ("behavior-green", "delivering") ∷ [])
    ∷ rule "delivery.failed" (("delivering", "delivery-ready") ∷ [])
    ∷ rule "delivery.completed" (("delivering", "delivering") ∷ ("closed", "closed") ∷ [])
    ∷ rule "cleanup.started" (("delivering", "cleaning") ∷ [])
    ∷ rule "cleanup.quarantined" (("cleaning", "cleaning") ∷ [])
    ∷ rule "cleanup.failed" (("cleaning", "cleaning") ∷ [])
    ∷ rule "cleanup.completed"
        (("cleaning", "cleaning") ∷ ("implementing-self-testing", "implementing-self-testing") ∷ [])
    ∷ rule "issue.closed" (("cleaning", "closed") ∷ [])
    ∷ rule "issue.reopened" (("closed", "discovered") ∷ [])
    ∷ rule "node.terminal-entered" (("*", "terminal") ∷ [])
    ∷ rule "node.terminal-recovered" (("terminal", "*") ∷ [])
    ∷ rule "attempt.cancelled" (("implementing-self-testing", "test-contract-frozen") ∷ [])
    ∷ rule "attempt.expired" (("implementing-self-testing", "test-contract-frozen") ∷ [])
    ∷ rule "attempt.invocation-failed" (("implementing-self-testing", "test-contract-frozen") ∷ [])
    ∷ rule "attempt.environment-failed" (("implementing-self-testing", "test-contract-frozen") ∷ [])
    ∷ rule "writer-stage.checkpoint-recorded" (("*", "*") ∷ [])
    ∷ rule "writer-stage.continuation-recorded" (("*", "*") ∷ [])
    ∷ rule "writer-stage.invocation-failed" (("*", "terminal") ∷ [])
    ∷ rule "writer-stage.environment-failed" (("*", "terminal") ∷ [])
    ∷ rule "writer-stage.runtime-capability-missing" (("*", "terminal") ∷ [])
    ∷ rule "writer-stage.first-action-not-executed" (("*", "terminal") ∷ [])
    ∷ rule "writer-stage.output-missing" (("*", "terminal") ∷ [])
    ∷ rule "writer-stage.checkpoint-missing" (("*", "terminal") ∷ [])
    ∷ rule "writer-stage.receipt-rejected" (("*", "terminal") ∷ [])
    ∷ rule "writer-stage.retry-authorized" (
        ("terminal", "discovered")
        ∷ ("terminal", "test-contract-frozen")
        ∷ ("terminal", "behavior-green")
        ∷ ("terminal", "ux-accepted")
        ∷ ("terminal", "delivery-ready")
        ∷ [])
    ∷ rule "writer-stage.slice-completed" (
        ("test-contracting", "test-contracting")
        ∷ ("implementing-self-testing", "implementing-self-testing")
        ∷ ("documenting", "documenting")
        ∷ ("delivering", "delivering")
        ∷ [])
    ∷ rule "writer-stage.completed" (
        ("test-contracting", "test-contracting")
        ∷ ("implementing-self-testing", "implementing-self-testing")
        ∷ ("documenting", "documenting")
        ∷ ("delivering", "delivering")
        ∷ [])
    ∷ rule "ledger.correction-recorded" (("*", "*") ∷ [])
    ∷ rule "dag.proposal-accepted" (("*", "*") ∷ [])
    ∷ rule "dag.proposal-rejected" (("*", "*") ∷ [])
    ∷ rule "route.reclassified" (("*", "*") ∷ [])
    ∷ rule "group.session.proposed" (("none", "proposed") ∷ [])
    ∷ rule "group.session.created" (("proposed", "created") ∷ [])
    ∷ rule "group.session.activated" (("created", "active") ∷ ("active", "active") ∷ [])
    ∷ rule "group.member.test-contract-frozen" (("test-contracting", "test-contract-frozen") ∷ [])
    ∷ rule "group.member.write-lease-granted" (("no-lease", "lease-granted") ∷ [])
    ∷ rule "group.member.candidate-created" (("implementing-self-testing", "candidate-green") ∷ [])
    ∷ rule "group.member.behavior-green" (("independent-verifying", "behavior-green") ∷ [])
    ∷ rule "group.member.committed"
        (("behavior-green", "committed") ∷ ("candidate-green", "committed") ∷ [])
    ∷ rule "group.member.delivery-completed" (("committed", "delivery-completed") ∷ [])
    ∷ rule "group.member.write-lease-revoked" (("lease-granted", "lease-revoked") ∷ [])
    ∷ rule "group.session.cleaning" (("active", "cleaning") ∷ [])
    ∷ rule "group.session.cleaned" (("cleaning", "cleaned") ∷ [])
    ∷ rule "group.session.cancelled" (("*", "cancelled") ∷ [])
    ∷ rule "group.session.failed" (("*", "failed") ∷ [])
    ∷ rule "group.session.completed" (("cleaned", "completed") ∷ [])
    ∷ lifecycle_rules

-- transitionTable[eventType]
unfoldable pub transition_table : String → Option Rule
unfolding rules
transition_table event_type = find (λ r. r.event_type == event_type) rules

-- One pair of a rule.
unfoldable pub allows : String → String → String × String → Bool
allows from_state to_state (from_allowed, to_allowed) =
    (from_allowed == "*" || from_allowed == from_state)
    && (to_allowed == "*" || to_allowed == to_state)

unfoldable pub permitted : Rule → String → String → Bool
permitted r from_state to_state = any (allows from_state to_state) r.transitions
