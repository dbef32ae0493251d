-- ===== src/Lifecycle/Definitions.antt =====
-- `definitions` of lifecycle-state-machine.mjs. A receipt key keeps its name from the source.
use issue_orchestration.Prelude.{String, List, [], ◌∷◌}

pub data State : Type 0 where
  discovered acceptance_frozen test_contract_planning test_contract_frozen implementing
        candidate_green behavior_green ui_adjudicating ux_acceptance ux_accepted documenting
        documentation_green delivery_ready delivering cleaning closed terminal :
      State

-- requiredReceipts
unfoldable pub required_receipts : State → List String
required_receipts discovered = []
required_receipts acceptance_frozen = "requirementInventory" ∷ "acceptanceContract" ∷ []
required_receipts test_contract_planning =
    "requirementInventory" ∷ "acceptanceContract" ∷ "planningRoute" ∷ "planningAttempt" ∷ []
required_receipts test_contract_frozen =
    "requirementInventory" ∷ "acceptanceContract" ∷ "planningRoute" ∷ "planningAttempt"
    ∷ "testContractPlan" ∷ "slicePlanProposal" ∷ "slicePlanValidation" ∷ "workPlan"
    ∷ "executableSlice" ∷ "routeDecision" ∷ "compiledPrompt" ∷ "resourceAcquisition" ∷ []
required_receipts implementing =
    "requirementInventory" ∷ "acceptanceContract" ∷ "planningRoute" ∷ "planningAttempt"
    ∷ "testContractPlan" ∷ "slicePlanProposal" ∷ "slicePlanValidation" ∷ "workPlan"
    ∷ "executableSlice" ∷ "routeDecision" ∷ "compiledPrompt" ∷ "resourceAcquisition"
    ∷ "writerDispatch" ∷ "activeAttempt" ∷ "writeLease" ∷ []
required_receipts candidate_green =
    "requirementInventory" ∷ "acceptanceContract" ∷ "testContractPlan" ∷ "workPlan"
    ∷ "executableSlice" ∷ "routeDecision" ∷ "implementationTerminal" ∷ "candidate" ∷ []
required_receipts behavior_green =
    "requirementInventory" ∷ "acceptanceContract" ∷ "implementationTerminal" ∷ "candidate"
    ∷ "behavior" ∷ []
required_receipts ui_adjudicating = "candidate" ∷ "behavior" ∷ "uiAdjudicationRoute" ∷ []
required_receipts ux_acceptance =
    "candidate" ∷ "behavior" ∷ "uiAdjudication" ∷ "uxAcceptanceRoute" ∷ []
required_receipts ux_accepted = "candidate" ∷ "behavior" ∷ "uiAdjudication" ∷ "uxAcceptance" ∷ []
required_receipts documenting = "candidate" ∷ "behavior" ∷ "documentationRoute" ∷ []
required_receipts documentation_green = "candidate" ∷ "behavior" ∷ "documentation" ∷ []
required_receipts delivery_ready = "candidate" ∷ "behavior" ∷ []
required_receipts delivering = "candidate" ∷ "behavior" ∷ "deliveryAttempt" ∷ []
required_receipts cleaning = "delivery" ∷ "cleanupAuthorization" ∷ []
required_receipts closed = "delivery" ∷ "cleanup" ∷ "closure" ∷ []
required_receipts terminal = "terminal" ∷ []

-- allowedReceipts
unfoldable pub allowed_receipts : State → List String
allowed_receipts discovered = []
allowed_receipts acceptance_frozen = "requirementInventory" ∷ "acceptanceContract" ∷ []
allowed_receipts test_contract_planning =
    "requirementInventory" ∷ "acceptanceContract" ∷ "planningRoute" ∷ "planningAttempt" ∷ []
allowed_receipts test_contract_frozen =
    "requirementInventory" ∷ "acceptanceContract" ∷ "planningRoute" ∷ "planningAttempt"
    ∷ "testContractPlan" ∷ "slicePlanProposal" ∷ "slicePlanValidation" ∷ "workPlan"
    ∷ "executableSlice" ∷ "routeDecision" ∷ "compiledPrompt" ∷ "resourceAcquisition" ∷ []
allowed_receipts implementing =
    "requirementInventory" ∷ "acceptanceContract" ∷ "planningRoute" ∷ "planningAttempt"
    ∷ "testContractPlan" ∷ "slicePlanProposal" ∷ "slicePlanValidation" ∷ "workPlan"
    ∷ "executableSlice" ∷ "routeDecision" ∷ "compiledPrompt" ∷ "resourceAcquisition"
    ∷ "writerDispatch" ∷ "activeAttempt" ∷ "writeLease" ∷ "writerCheckpoint" ∷ "writerFailure"
    ∷ "retryAuthorization" ∷ []
allowed_receipts candidate_green =
    "requirementInventory" ∷ "acceptanceContract" ∷ "planningRoute" ∷ "planningAttempt"
    ∷ "testContractPlan" ∷ "slicePlanProposal" ∷ "slicePlanValidation" ∷ "workPlan"
    ∷ "executableSlice" ∷ "routeDecision" ∷ "compiledPrompt" ∷ "resourceAcquisition"
    ∷ "writerDispatch" ∷ "activeAttempt" ∷ "writeLease" ∷ "writerCheckpoint" ∷ "writerFailure"
    ∷ "retryAuthorization" ∷ "implementationTerminal" ∷ "candidate" ∷ []
allowed_receipts behavior_green =
    "requirementInventory" ∷ "acceptanceContract" ∷ "planningRoute" ∷ "planningAttempt"
    ∷ "testContractPlan" ∷ "slicePlanProposal" ∷ "slicePlanValidation" ∷ "workPlan"
    ∷ "executableSlice" ∷ "routeDecision" ∷ "compiledPrompt" ∷ "resourceAcquisition"
    ∷ "writerDispatch" ∷ "activeAttempt" ∷ "writeLease" ∷ "writerCheckpoint" ∷ "writerFailure"
    ∷ "retryAuthorization" ∷ "implementationTerminal" ∷ "candidate" ∷ "behavior" ∷ []
allowed_receipts ui_adjudicating =
    "requirementInventory" ∷ "acceptanceContract" ∷ "candidate" ∷ "behavior" ∷ "uiAdjudicationRoute"
    ∷ []
allowed_receipts ux_acceptance =
    "requirementInventory" ∷ "acceptanceContract" ∷ "candidate" ∷ "behavior" ∷ "uiAdjudicationRoute"
    ∷ "uiAdjudication" ∷ "uxAcceptanceRoute" ∷ []
allowed_receipts ux_accepted =
    "requirementInventory" ∷ "acceptanceContract" ∷ "candidate" ∷ "behavior" ∷ "uiAdjudicationRoute"
    ∷ "uiAdjudication" ∷ "uxAcceptanceRoute" ∷ "uxAcceptance" ∷ []
allowed_receipts documenting =
    "requirementInventory" ∷ "acceptanceContract" ∷ "candidate" ∷ "behavior" ∷ "uiAdjudication"
    ∷ "uxAcceptance" ∷ "documentationRoute" ∷ []
allowed_receipts documentation_green =
    "requirementInventory" ∷ "acceptanceContract" ∷ "candidate" ∷ "behavior" ∷ "uiAdjudication"
    ∷ "uxAcceptance" ∷ "documentationRoute" ∷ "documentation" ∷ []
allowed_receipts delivery_ready =
    "requirementInventory" ∷ "acceptanceContract" ∷ "candidate" ∷ "behavior" ∷ "uiAdjudication"
    ∷ "uxAcceptance" ∷ "documentation" ∷ []
allowed_receipts delivering =
    "requirementInventory" ∷ "acceptanceContract" ∷ "candidate" ∷ "behavior" ∷ "uiAdjudication"
    ∷ "uxAcceptance" ∷ "documentation" ∷ "deliveryAttempt" ∷ "delivery" ∷ []
allowed_receipts cleaning =
    "requirementInventory" ∷ "acceptanceContract" ∷ "candidate" ∷ "behavior" ∷ "uiAdjudication"
    ∷ "uxAcceptance" ∷ "documentation" ∷ "deliveryAttempt" ∷ "delivery" ∷ "cleanupAuthorization"
    ∷ "cleanup" ∷ []
allowed_receipts closed =
    "requirementInventory" ∷ "acceptanceContract" ∷ "candidate" ∷ "behavior" ∷ "uiAdjudication"
    ∷ "uxAcceptance" ∷ "documentation" ∷ "deliveryAttempt" ∷ "delivery" ∷ "cleanupAuthorization"
    ∷ "cleanup" ∷ "closure" ∷ []
allowed_receipts terminal =
    "requirementInventory" ∷ "acceptanceContract" ∷ "candidate" ∷ "behavior" ∷ "uiAdjudication"
    ∷ "uxAcceptance" ∷ "documentation" ∷ "deliveryAttempt" ∷ "delivery" ∷ "cleanupAuthorization"
    ∷ "cleanup" ∷ "terminal" ∷ []

-- next
unfoldable pub next : State → List State
next discovered = acceptance_frozen ∷ []
next acceptance_frozen = test_contract_planning ∷ []
next test_contract_planning = test_contract_frozen ∷ []
next test_contract_frozen = implementing ∷ []
next implementing = candidate_green ∷ terminal ∷ []
next candidate_green = behavior_green ∷ terminal ∷ []
next behavior_green = ui_adjudicating ∷ documenting ∷ delivery_ready ∷ terminal ∷ []
next ui_adjudicating = ux_acceptance ∷ terminal ∷ []
next ux_acceptance = ux_accepted ∷ terminal ∷ []
next ux_accepted = documenting ∷ delivery_ready ∷ terminal ∷ []
next documenting = documentation_green ∷ terminal ∷ []
next documentation_green = delivery_ready ∷ terminal ∷ []
next delivery_ready = delivering ∷ terminal ∷ []
next delivering = cleaning ∷ terminal ∷ []
next cleaning = closed ∷ terminal ∷ []
next closed = []
next terminal = []
