-- ===== src/Dispatch/Lease.antt =====
-- Dispatch leases: validation, acquisition, release and recovery. `digest`, the SHA-256 of the
-- canonical JSON of a body, and `Date.parse`, whose NaN is `none`, are parameters.
pub mod Exclusive
pub mod Exact
pub mod Freed
use issue_orchestration.Prelude.{
  ℕ, String, Bool, true, false, Option, some, none, List, [], ◌∷◌, ◌==◌, leb, not, ◌||◌, ◌&&◌, any,
  filter, includes, is_text, is_hash, if◌then◌else◌, Result, ok, err, reject, ◌>>=◌, ◌>>◌,
}

pub data Code : Type 0 where
  lease_schema lease_digest_mismatch lease_recovery_required lease_conflict_held : Code
  lease_attempt_mismatch lease_recovery_evidence : Code

pub record RecoveryEvidence : Type 0 where
  pub owner_attempt_terminal : Bool
  pub owner_process_absent : Bool
  pub evidence_digest : Option String

-- A lease without its `leaseDigest`.
pub record Body : Type 0 where
  pub schema : String
  pub lease_id : String
  pub kind : String
  pub keys : List String
  pub owner_id : String
  pub attempt_id : String
  pub stage_task_id : String
  pub acquired_at : String
  pub expires_at : String
  pub recovery_rule : String
  pub state : String
  pub released_at : Option String
  pub recovered_at : Option String
  pub recovery_evidence : Option RecoveryEvidence

pub record Lease : Type 0 where
  pub body : Body
  pub open body use *
  pub lease_digest : String

pub record Request : Type 0 where
  pub lease_id : String
  pub kind : String
  pub keys : List String
  pub owner_id : String
  pub attempt_id : String
  pub stage_task_id : String
  pub acquired_at : String
  pub expires_at : String
  pub recovery_rule : String

abbrev pub is_empty {ℓ} : {A : Type ℓ} → List A → Bool
is_empty [] = true
is_empty (x ∷ xs) = false

-- overlap
unfoldable pub overlap : List String → List String → List String
overlap left right = filter (includes right) left

abbrev pub lease_schema_name : String
lease_schema_name = "issue-orchestration.dispatch-lease.v1"

-- The first test of validateLease.
unfoldable pub incomplete : Lease → Bool
incomplete l =
    not (l.schema == lease_schema_name)
    || any (λ field. field == "")
        (l.lease_id ∷ l.kind ∷ l.owner_id ∷ l.attempt_id ∷ l.stage_task_id ∷ l.acquired_at
          ∷ l.expires_at ∷ l.recovery_rule ∷ l.state ∷ [])
    || is_empty l.keys

module _ (digest : Body → String) where
  -- validateLease
  unfoldable pub validate_lease : Lease → Result Code Lease
  validate_lease l = do
    reject (incomplete l) lease_schema
    reject (not (l.lease_digest == digest l.body)) lease_digest_mismatch
    ok l

  -- { ...body, leaseDigest: digest(body) }
  abbrev pub sealed : Body → Lease
  sealed b = record { body = b; lease_digest = digest b }

  -- releaseDispatchLease
  unfoldable pub release_dispatch_lease : Lease → String → String → Result Code Lease
  release_dispatch_lease l attempt_id released_at = do
    validate_lease l
    reject (not (l.attempt_id == attempt_id)) lease_attempt_mismatch
    ok (sealed (record l.body { state = "released"; released_at = some released_at }))

module _ (date_parse : String → Option ℕ) where
  -- Date.parse(a) <= Date.parse(b), which is false where either is NaN
  unfoldable pub not_after : String → String → Bool
  not_after a b = elim (date_parse a) [
    | none ↦ false
    | some m ↦ elim (date_parse b) [ none ↦ false | some n ↦ leb m n ]
  ]

  -- Date.parse(a) > Date.parse(b), which is false where either is NaN
  unfoldable pub after : String → String → Bool
  after a b = elim (date_parse a) [
    | none ↦ false
    | some m ↦ elim (date_parse b) [ none ↦ false | some n ↦ not (leb m n) ]
  ]

-- The body that acquireDispatchLease seals.
abbrev pub acquired_body : Request → Body
acquired_body r = record {
  schema = lease_schema_name;
  lease_id = r.lease_id;
  kind = r.kind;
  keys = r.keys;
  owner_id = r.owner_id;
  attempt_id = r.attempt_id;
  stage_task_id = r.stage_task_id;
  acquired_at = r.acquired_at;
  expires_at = r.expires_at;
  recovery_rule = r.recovery_rule;
  state = "active";
  released_at = none;
  recovered_at = none;
  recovery_evidence = none;
}

module _ (digest : Body → String) (date_parse : String → Option ℕ) where
  -- The loop of acquireDispatchLease over the leases that exist.
  unfoldable pub check_free : List Lease → Request → Result Code (Unit {0})
  check_free [] request = ok tt
  check_free (l ∷ leases) request =
      let rest = check_free leases request in
      do
        validate_lease digest l
        if not (l.state == "active") || is_empty (overlap l.keys request.keys)
            then rest
            else if not_after date_parse l.expires_at request.acquired_at
            then err lease_recovery_required
            else err lease_conflict_held

  -- acquireDispatchLease
  unfoldable pub acquire_dispatch_lease : List Lease → Request → Result Code Lease
  acquire_dispatch_lease active_leases request = do
    check_free active_leases request
    validate_lease digest (sealed digest (acquired_body request))

  -- recoverExpiredDispatchLease
  unfoldable pub recover_expired_dispatch_lease :
      Lease → String → RecoveryEvidence → Result Code Lease
  recover_expired_dispatch_lease l recovered_at evidence = do
    validate_lease digest l
    reject
        (after date_parse l.expires_at recovered_at
          || not evidence.owner_attempt_terminal
          || not evidence.owner_process_absent
          || not (is_hash evidence.evidence_digest))
        lease_recovery_evidence
    ok (
        sealed digest (record l.body {
          state = "recovered";
          recovered_at = some recovered_at;
          recovery_evidence = some evidence;
        }))
