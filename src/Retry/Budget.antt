-- ===== src/Retry/Budget.antt =====
-- How often the retry of one failure is authorized.
use issue_orchestration.Prelude.{ℕ, String, Bool, List, [], ◌∷◌, ◌++◌, ◌≡◌, filter, length, ok}
use issue_orchestration.Retry.Rollout.{SemanticIdentity, RuntimeObservation}
use issue_orchestration.Retry.Authorization.{
  Authorization, AuthorizationBody, RetryInput, authorizes, authorize_transient_empty_rollout_retry,
}

-- The authorizations that are given one after the other, each on the receipts of those before it.
pub data Given (identity_digest : SemanticIdentity → String)
    (profile_verified : String → RuntimeObservation → Bool)
    (authorization_digest : AuthorizationBody → String) : List Authorization → Type 0 where
  nothing : Given identity_digest profile_verified authorization_digest []
  another :
      {log : List Authorization} (i : RetryInput) (a : Authorization)
      → Given identity_digest profile_verified authorization_digest log
      → i.prior_authorizations ≡ log
      → authorize_transient_empty_rollout_retry identity_digest profile_verified
          authorization_digest i
        ≡ ok a
      → Given identity_digest profile_verified authorization_digest (log ++ a ∷ [])

unfoldable pub count : String → List Authorization → ℕ
count failure log = length (filter (authorizes failure) log)
