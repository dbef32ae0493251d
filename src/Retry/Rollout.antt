-- ===== src/Retry/Rollout.antt =====
-- `classifyTransientEmptyRollout`. A text that is missing is the empty text, and a list that is no
-- array is missing. The digest of a semantic identity is a parameter, and so is
-- `verifyRuntimeProfileMetadata` of stage-profile-policy.mjs, which accepts or throws.
use issue_orchestration.Prelude.{
  ℕ, String, Bool, true, false, Option, some, none, List, [], ◌∷◌, ◌==◌, not, ◌||◌, any, length,
  eqb, includes, is_hash, is_some, Result, ok, err, reject, ◌>>=◌, ◌>>◌,
}

pub data RetryCode : Type 0 where
  transient_retry_failure_receipt transient_retry_first_failure : RetryCode
  transient_retry_side_effect transient_retry_semantic_identity : RetryCode
  transient_retry_runtime_identity transient_retry_runtime_mismatch : RetryCode
  transient_retry_not_empty transient_retry_termination_class : RetryCode
  transient_retry_semantic_drift transient_retry_budget_exhausted : RetryCode
  transient_retry_new_identity : RetryCode

pub record SemanticIdentity : Type 0 where
  pub plan_digest : String
  pub slice_digest : String
  pub prompt_digest : String
  pub route_decision_digest : String
  pub candidate_digest : String

pub record FailureReceipt : Type 0 where
  pub schema : String
  pub classification : String
  pub status : String
  pub failure_receipt_digest : String
  pub first_failure_receipt_digest : String
  pub rework_count_delta : Option ℕ
  pub human_decision_required : Option Bool
  pub semantic_identity : Option SemanticIdentity
  pub semantic_failure_identity : String
  pub selected_profile : String

pub record RuntimeObservation : Type 0 where
  pub schema : String
  pub source : String
  pub dispatch_accepted : Bool
  pub thread_id : String
  pub rollout_id : String
  pub request_id : String
  pub observation_digest : String
  pub selected_profile : String
  pub requested_model : Option String
  pub effective_model : Option String
  pub requested_effort : Option String
  pub effective_effort : Option String
  pub multi_agent_backend : Option String
  pub role : Option String
  pub sandbox : Option String
  pub cwd : Option String
  pub skills_digest : Option String
  pub lease_digest : Option String
  pub assistant_content_events : Option (List String)
  pub tool_call_events : Option (List String)
  pub command_events : Option (List String)
  pub filesystem_write_events : Option (List String)
  pub checkpoint_events : Option (List String)
  pub terminal_artifact_events : Option (List String)
  pub termination_class : String

pub record Classification : Type 0 where
  pub schema : String
  pub classification : String
  pub semantic_failure_identity : String
  pub failure_receipt_digest : String
  pub runtime_observation_digest : String
  pub action_count : ℕ

abbrev is_zero : Option ℕ → Bool
is_zero none = false
is_zero (some n) = eqb n 0

abbrev is_false : Option Bool → Bool
is_false none = false
is_false (some value) = not value

unfoldable pub bad_identity : SemanticIdentity → Bool
bad_identity s =
    any (λ d. not (is_hash (some d)))
      (s.plan_digest ∷ s.slice_digest ∷ s.prompt_digest ∷ s.route_decision_digest
        ∷ s.candidate_digest ∷ [])

abbrev given : Option SemanticIdentity → Result RetryCode SemanticIdentity
given none = err transient_retry_semantic_identity
given (some s) = ok s

-- A field of EMPTY_EVENT_FIELDS is no array or is not empty.
unfoldable pub not_empty : Option (List String) → Bool
not_empty none = true
not_empty (some events) = not (eqb (length events) 0)

unfoldable pub event_fields : RuntimeObservation → List (Option (List String))
event_fields o =
    o.assistant_content_events ∷ o.tool_call_events ∷ o.command_events ∷ o.filesystem_write_events
    ∷ o.checkpoint_events ∷ o.terminal_artifact_events ∷ []

-- TRANSIENT_TERMINATIONS
unfoldable pub transient_terminations : List String
transient_terminations =
    "transport-termination" ∷ "service-termination" ∷ "empty-assistant-turn" ∷ []

module _ (identity_digest : SemanticIdentity → String)
    (profile_verified : String → RuntimeObservation → Bool) where
  -- validateFailure, which gives the semantic identity
  unfoldable pub validate_failure : FailureReceipt → Result RetryCode SemanticIdentity
  validate_failure f = do
    reject
        (not (f.schema == "issue-orchestration.writer-stage-failure-receipt.v1")
          || not (f.classification == "writer-stage.output-missing")
          || not (f.status == "terminal"))
        transient_retry_failure_receipt
    reject (not (is_hash (some f.failure_receipt_digest))) transient_retry_first_failure
    reject (not (f.first_failure_receipt_digest == f.failure_receipt_digest))
        transient_retry_first_failure
    reject (not (is_zero f.rework_count_delta) || not (is_false f.human_decision_required))
        transient_retry_side_effect
    identity ← given f.semantic_identity
    reject (not (f.semantic_failure_identity == identity_digest identity))
        transient_retry_semantic_identity
    reject (bad_identity identity) transient_retry_semantic_identity
    ok identity

  -- validateRuntime
  unfoldable pub validate_runtime :
      RuntimeObservation → FailureReceipt → Result RetryCode (Unit {0})
  validate_runtime o f = do
    reject
        (not (o.schema == "issue-orchestration.writer-runtime-observation.v2")
          || not (o.source == "trusted-codex-runtime-trace")
          || not o.dispatch_accepted)
        transient_retry_runtime_identity
    reject (o.thread_id == "" || o.rollout_id == "" || o.request_id == "")
        transient_retry_runtime_identity
    reject (not (is_hash (some o.observation_digest))) transient_retry_runtime_identity
    reject (not (profile_verified f.selected_profile o)) transient_retry_runtime_mismatch
    reject
        (not (o.selected_profile == f.selected_profile)
          || not (is_some o.role)
          || not (is_some o.sandbox)
          || not (is_some o.cwd)
          || not (is_hash o.skills_digest)
          || not (is_hash o.lease_digest))
        transient_retry_runtime_mismatch
    reject (any not_empty (event_fields o)) transient_retry_not_empty
    reject (not (includes transient_terminations o.termination_class))
        transient_retry_termination_class

  -- classifyTransientEmptyRollout
  unfoldable pub classify_transient_empty_rollout :
      FailureReceipt → RuntimeObservation → Result RetryCode Classification
  classify_transient_empty_rollout f o = do
    identity ← validate_failure f
    validate_runtime o f
    ok (record {
      schema = "issue-orchestration.transient-rollout-classification.v1";
      classification = "writer-stage.transient-rollout-empty";
      semantic_failure_identity = f.semantic_failure_identity;
      failure_receipt_digest = f.failure_receipt_digest;
      runtime_observation_digest = o.observation_digest;
      action_count = 0;
    })
