-- ===== src/Dispatch/Lease/Freed.antt =====
-- What is released or recovered no longer stands in the way of a request.
use issue_orchestration.Prelude.{
  ℕ, ◌<◌, String, ◌≡◌, ◌⊎◌, inl, inr, refl, true, false, Option, some, none, List, [], ◌∷◌, ◌++◌,
  ◌==◌, arith, is_hash, ok, err, any, eq_refl, >>=-eq-ok,
}
use issue_orchestration.Dispatch.Lease.{
  Body, Lease, Request, RecoveryEvidence, lease_conflict_held, is_empty, overlap, incomplete,
  validate_lease, check_free, sealed, acquire_dispatch_lease, release_dispatch_lease,
  recover_expired_dispatch_lease, after, not_after,
}

module _ (digest : Body → String) (date_parse : String → Option ℕ) where
  -- The lease is valid and stands in the way of no request.
  IsFree : Lease → Type 0
  IsFree l = (validate_lease digest l ≡ ok l) × ((l.state == "active") ≡ false)

  -- A lease stays valid when it is sealed with another state and another end.
  sealed_valid :
      (l m : Lease) (state : String) (released_at recovered_at : Option String)
      (evidence : Option RecoveryEvidence)
      → validate_lease digest l ≡ ok m
      → (state == "") ≡ false
      → validate_lease digest (
          sealed digest (record l.body {
            state = state;
            released_at = released_at;
            recovered_at = recovered_at;
            recovery_evidence = evidence;
          }))
        ≡ ok (
            sealed digest (record l.body {
              state = state;
              released_at = released_at;
              recovered_at = recovered_at;
              recovery_evidence = evidence;
            }))
  unfolding validate_lease incomplete any
  sealed_valid l m state released_at recovered_at evidence h named = ground (
    arith,
    eq_refl (
        digest (record l.body {
          state = state;
          released_at = released_at;
          recovered_at = recovered_at;
          recovery_evidence = evidence;
        })),
  )

  released-IsFree :
      (l l' : Lease) (attempt_id released_at : String)
      → release_dispatch_lease digest l attempt_id released_at ≡ ok l'
      → IsFree l'
  unfolding release_dispatch_lease IsFree
  released-IsFree l l' attempt_id released_at h =
      let (m, valid, rest) = >>=-eq-ok (validate_lease digest l) _ h in
      let e : l'
          ≡ sealed digest (record l.body { state = "released"; released_at = some released_at }) =
        ground arith in
      rw e (
        sealed_valid l m "released" (some released_at) l.recovered_at l.recovery_evidence valid
            refl,
        refl,
      )

  recovered-IsFree :
      (l l' : Lease) (recovered_at : String) (evidence : RecoveryEvidence)
      → recover_expired_dispatch_lease digest date_parse l recovered_at evidence ≡ ok l'
      → IsFree l'
  unfolding recover_expired_dispatch_lease IsFree
  recovered-IsFree l l' recovered_at evidence h =
      let (m, valid, rest) = >>=-eq-ok (validate_lease digest l) _ h in
      let e : l'
          ≡ sealed digest (record l.body {
            state = "recovered";
            recovered_at = some recovered_at;
            recovery_evidence = some evidence;
          }) =
        ground arith in
      rw e (
        sealed_valid l m "recovered" l.released_at (some recovered_at) (some evidence) valid refl,
        refl,
      )

  check_free_passes :
      (before others : List Lease) (l : Lease) (r : Request)
      → IsFree l
      → check_free digest date_parse (before ++ l ∷ others) r
        ≡ check_free digest date_parse (before ++ others) r
  unfolding check_free IsFree
  check_free_passes [] others l r h = ground arith
  check_free_passes (m ∷ before) others l r h = rw (check_free_passes before others l r h) refl

  -- A lease that its attempt releases or that is recovered makes no difference to the requests
  -- after it, wherever it stands among the leases: the answer to each is as if it were not there.
  pub ended_unblocks :
      (before others : List Lease) (r : Request) (l l' : Lease) (attempt_id time : String)
      (evidence : RecoveryEvidence)
      → (release_dispatch_lease digest l attempt_id time ≡ ok l')
        ⊎ (recover_expired_dispatch_lease digest date_parse l time evidence ≡ ok l')
      → acquire_dispatch_lease digest date_parse (before ++ l' ∷ others) r
        ≡ acquire_dispatch_lease digest date_parse (before ++ others) r
  unfolding acquire_dispatch_lease
  ended_unblocks before others r l l' attempt_id time evidence (inl h) =
      rw (check_free_passes before others l' r (released-IsFree l l' attempt_id time h)) refl
  ended_unblocks before others r l l' attempt_id time evidence (inr h) =
      rw (check_free_passes before others l' r (recovered-IsFree l l' time evidence h)) refl

  undated_recovered :
      (l : Lease) (recovered_at : String) (evidence : RecoveryEvidence)
      → validate_lease digest l ≡ ok l
      → date_parse recovered_at ≡ none
      → evidence.owner_attempt_terminal ≡ true
      → evidence.owner_process_absent ≡ true
      → is_hash evidence.evidence_digest ≡ true
      → (l' : Lease) × (recover_expired_dispatch_lease digest date_parse l recovered_at evidence
          ≡ ok l')
  unfolding recover_expired_dispatch_lease after
  undated_recovered l recovered_at evidence valid undated ended gone known = (
    sealed digest (record l.body {
      state = "recovered";
      recovered_at = some recovered_at;
      recovery_evidence = some evidence;
    }),
    ground arith,
  )

  held_refuses :
      (leases : List Lease) (l : Lease) (r : Request) (m n : ℕ)
      → validate_lease digest l ≡ ok l
      → (l.state == "active") ≡ true
      → is_empty (overlap l.keys r.keys) ≡ false
      → date_parse l.expires_at ≡ some m
      → date_parse r.acquired_at ≡ some n
      → n < m
      → acquire_dispatch_lease digest date_parse (l ∷ leases) r ≡ err lease_conflict_held
  unfolding acquire_dispatch_lease check_free not_after
  held_refuses leases l r m n valid active shared expires acquired before = ground arith

  -- A valid active lease that expires after a request is made, and so refuses the request for a
  -- key that it holds, is recovered all the same if the recovery time is no date and the evidence
  -- is complete, and then the request is answered as if the lease were not there.
  pub undated_recovery_unblocks :
      (leases : List Lease) (l : Lease) (r : Request) (m n : ℕ) (recovered_at : String)
      (evidence : RecoveryEvidence)
      → validate_lease digest l ≡ ok l
      → (l.state == "active") ≡ true
      → is_empty (overlap l.keys r.keys) ≡ false
      → date_parse l.expires_at ≡ some m
      → date_parse r.acquired_at ≡ some n
      → n < m
      → date_parse recovered_at ≡ none
      → evidence.owner_attempt_terminal ≡ true
      → evidence.owner_process_absent ≡ true
      → is_hash evidence.evidence_digest ≡ true
      → (acquire_dispatch_lease digest date_parse (l ∷ leases) r ≡ err lease_conflict_held)
        × ((l' : Lease) × (recover_expired_dispatch_lease digest date_parse l recovered_at evidence
              ≡ ok l')
            × (acquire_dispatch_lease digest date_parse (l' ∷ leases) r
                ≡ acquire_dispatch_lease digest date_parse leases r))
  undated_recovery_unblocks leases l r m n at evidence valid active shared expires acquired before
        undated ended gone known =
      let (l', recovered) = undated_recovered l at evidence valid undated ended gone known in
      (
        held_refuses leases l r m n valid active shared expires acquired before,
        (l', recovered, ended_unblocks [] leases r l l' "" at evidence (inr recovered)),
      )
