-- ===== src/Retry/Authorization.antt =====
-- `authorizeTransientEmptyRolloutRetry`. The digest of an authorization is a parameter.
use issue_orchestration.Prelude.{
  ℕ, String, Bool, true, false, Option, some, none, List, ◌==◌, not, ◌&&◌, ◌||◌, any, Result, ok,
  reject, ◌>>=◌, ◌>>◌,
}
use issue_orchestration.Retry.Rollout.{
  RetryCode, SemanticIdentity, FailureReceipt, RuntimeObservation, validate_failure,
  classify_transient_empty_rollout, transient_retry_semantic_drift,
  transient_retry_budget_exhausted, transient_retry_new_identity,
}

pub record RolloutIdentity : Type 0 where
  pub thread_id : String
  pub rollout_id : String
  pub request_id : String

pub record AuthorizationBody : Type 0 where
  pub schema : String
  pub status : String
  pub classification : String
  pub retry_ordinal : ℕ
  pub semantic_failure_identity : String
  pub semantic_identity : SemanticIdentity
  pub first_failure_receipt_digest : String
  pub first_failure_preserved : Bool
  pub previous_runtime_observation_digest : String
  pub new_rollout_identity : RolloutIdentity
  pub selected_profile : String
  pub profile_change_allowed : Bool
  pub rework_count_delta : ℕ
  pub human_decision_required : Bool

pub record Authorization : Type 0 where
  pub body : AuthorizationBody
  pub authorization_digest : String

pub record RetryInput : Type 0 where
  pub failure_receipt : FailureReceipt
  pub runtime_observation : RuntimeObservation
  pub retry_semantic_identity : Option SemanticIdentity
  pub prior_authorizations : List Authorization
  pub new_rollout_identity : RolloutIdentity

-- sameValue of two semantic identities. An identity is its five digests here: a further key, which
-- the source would compare too, is not part of the model.
unfoldable pub same_identity : SemanticIdentity → SemanticIdentity → Bool
same_identity a b =
    a.plan_digest == b.plan_digest
    && a.slice_digest == b.slice_digest
    && a.prompt_digest == b.prompt_digest
    && a.route_decision_digest == b.route_decision_digest
    && a.candidate_digest == b.candidate_digest

abbrev or_identity : Option SemanticIdentity → SemanticIdentity → SemanticIdentity
or_identity none identity = identity
or_identity (some given) identity = given

-- A prior receipt that authorizes the retry of a failure.
unfoldable pub authorizes : String → Authorization → Bool
authorizes failure a = a.body.status == "authorized" && a.body.semantic_failure_identity == failure

-- The loop over the fields of the new identity.
unfoldable pub stale_identity : RolloutIdentity → RuntimeObservation → Bool
stale_identity next o =
    next.thread_id == ""
    || next.thread_id == o.thread_id
    || next.rollout_id == ""
    || next.rollout_id == o.rollout_id
    || next.request_id == ""
    || next.request_id == o.request_id

unfoldable pub authorization_body : RetryInput → SemanticIdentity → AuthorizationBody
authorization_body i identity = record {
  schema = "issue-orchestration.transient-rollout-retry-authorization.v1";
  status = "authorized";
  classification = "writer-stage.transient-rollout-retry-authorized";
  retry_ordinal = 1;
  semantic_failure_identity = i.failure_receipt.semantic_failure_identity;
  semantic_identity = identity;
  first_failure_receipt_digest = i.failure_receipt.failure_receipt_digest;
  first_failure_preserved = true;
  previous_runtime_observation_digest = i.runtime_observation.observation_digest;
  new_rollout_identity = i.new_rollout_identity;
  selected_profile = i.failure_receipt.selected_profile;
  profile_change_allowed = false;
  rework_count_delta = 0;
  human_decision_required = false;
}

module _ (identity_digest : SemanticIdentity → String)
    (profile_verified : String → RuntimeObservation → Bool)
    (authorization_digest : AuthorizationBody → String) where
  -- authorizeTransientEmptyRolloutRetry
  unfoldable pub authorize_transient_empty_rollout_retry :
      RetryInput → Result RetryCode Authorization
  authorize_transient_empty_rollout_retry i = do
    classify_transient_empty_rollout identity_digest profile_verified i.failure_receipt
        i.runtime_observation
    identity ← validate_failure identity_digest profile_verified i.failure_receipt
    reject (not (same_identity (or_identity i.retry_semantic_identity identity) identity))
        transient_retry_semantic_drift
    reject (any (authorizes i.failure_receipt.semantic_failure_identity) i.prior_authorizations)
        transient_retry_budget_exhausted
    reject (stale_identity i.new_rollout_identity i.runtime_observation)
        transient_retry_new_identity
    let body : AuthorizationBody = authorization_body i identity
    ok (record { body = body; authorization_digest = authorization_digest body })
