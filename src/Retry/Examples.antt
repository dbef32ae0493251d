-- ===== src/Retry/Examples.antt =====
-- A retry that is authorized once, and refused the second time.
use issue_orchestration.Prelude.{
  String, Bool, true, false, some, none, List, [], ◌∷◌, ◌≡◌, refl, err, zero_hash, is_hash, any,
  includes,
}
use issue_orchestration.Retry.Rollout.{
  SemanticIdentity, FailureReceipt, RuntimeObservation, bad_identity, not_empty, event_fields,
  transient_terminations, validate_failure, validate_runtime, classify_transient_empty_rollout,
  transient_retry_budget_exhausted,
}
use issue_orchestration.Retry.Authorization.{
  Authorization, AuthorizationBody, RetryInput, same_identity, authorizes, stale_identity,
  authorization_body, authorize_transient_empty_rollout_retry,
}

abbrev identity_digest : SemanticIdentity → String
identity_digest s = zero_hash

abbrev profile_verified : String → RuntimeObservation → Bool
profile_verified profile o = true

abbrev authorization_digest : AuthorizationBody → String
authorization_digest body = zero_hash

abbrev identity : SemanticIdentity
identity = record {
  plan_digest = zero_hash;
  slice_digest = zero_hash;
  prompt_digest = zero_hash;
  route_decision_digest = zero_hash;
  candidate_digest = zero_hash;
}

abbrev failure : FailureReceipt
failure = record {
  schema = "issue-orchestration.writer-stage-failure-receipt.v1";
  classification = "writer-stage.output-missing";
  status = "terminal";
  failure_receipt_digest = zero_hash;
  first_failure_receipt_digest = zero_hash;
  rework_count_delta = some 0;
  human_decision_required = some false;
  semantic_identity = some identity;
  semantic_failure_identity = zero_hash;
  selected_profile = "profile";
}

abbrev observation : RuntimeObservation
observation = record {
  schema = "issue-orchestration.writer-runtime-observation.v2";
  source = "trusted-codex-runtime-trace";
  dispatch_accepted = true;
  thread_id = "t1";
  rollout_id = "r1";
  request_id = "q1";
  observation_digest = zero_hash;
  selected_profile = "profile";
  requested_model = none;
  effective_model = none;
  requested_effort = none;
  effective_effort = none;
  multi_agent_backend = none;
  role = some "writer";
  sandbox = some "workspace-write";
  cwd = some "/w";
  skills_digest = some zero_hash;
  lease_digest = some zero_hash;
  assistant_content_events = some [];
  tool_call_events = some [];
  command_events = some [];
  filesystem_write_events = some [];
  checkpoint_events = some [];
  terminal_artifact_events = some [];
  termination_class = "service-termination";
}

abbrev retry : List Authorization → RetryInput
retry prior = record {
  failure_receipt = failure;
  runtime_observation = observation;
  retry_semantic_identity = none;
  prior_authorizations = prior;
  new_rollout_identity = record { thread_id = "t2"; rollout_id = "r2"; request_id = "q2" };
}

abbrev given : Authorization
given = record { body = authorization_body (retry []) identity; authorization_digest = zero_hash }

second_refused :
    authorize_transient_empty_rollout_retry identity_digest profile_verified authorization_digest
      (retry (given ∷ []))
    ≡ err transient_retry_budget_exhausted
unfolding authorize_transient_empty_rollout_retry classify_transient_empty_rollout validate_failure
    validate_runtime bad_identity not_empty event_fields transient_terminations same_identity
    authorizes authorization_body stale_identity is_hash any includes
second_refused = refl
