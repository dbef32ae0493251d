-- ===== src/Resources/Leases.antt =====
-- The write lease of the implementer and the read lease of the independent verifier.
use issue_orchestration.Prelude.{
  String, false, Option, some, none, ◌==◌, ◌≡◌, refl, arith, ok, >>=-eq-ok, eq_iff,
}
use issue_orchestration.Resources.Registry.{
  WriteLease, ReadLease, Registry, create_resource_registry,
}
use issue_orchestration.Resources.Receipt.{Digests, CleanupReceipt, verify_cleanup_receipt}
use issue_orchestration.Resources.Event.{
  Event, self_test_failed, candidate_green, verification_rejected, terminal_requested,
  slot_release_requested, group_cleanup_completed, Binding, apply_self_test_failure,
  apply_candidate_green, apply_verification_rejection, apply_service_replacement,
  apply_member_cleanup, apply_group_cleanup, apply_verified_cleanup, require_lifecycle_binding,
  with_lease_state, apply_event, apply_resource_event,
}

-- Where a verifier reads, no writer is active.
abbrev pub Separated : Option ReadLease → Option WriteLease → Type 0
Separated none w = Unit
Separated (some l) none = Unit
Separated (some l) (some w) = (w.state == "active") ≡ false

pub record IsSeparated (r : Registry) : Type 0 where
  pub separated : Separated r.read_lease r.write_lease

-- A lease that is revoked or released is no active one.
inactive-Separated :
    (l : Option ReadLease) (w : Option WriteLease) (s : String)
    → (s == "active") ≡ false
    → Separated l (with_lease_state s w)
inactive-Separated none w s h = tt
inactive-Separated (some l) none s h = tt
inactive-Separated (some l) (some w) s h = h

module _ (digests : Digests) where
  -- What a cleanup that is accepted went through, and what it leaves.
  pub record Cleaned (r r' : Registry) (given : Option CleanupReceipt) : Type 0 where
    pub receipt : CleanupReceipt
    pub present : given ≡ some receipt
    pub verified : verify_cleanup_receipt digests receipt ≡ ok tt
    pub of_run : receipt.run_id ≡ r.run_id
    pub of_attempt : receipt.attempt_id ≡ r.stage_attempt_id
    pub of_epoch : receipt.epoch_id ≡ r.epoch_id
    pub result : r' ≡ record r {
      cleanup_receipt_digest = receipt.receipt_digest;
      slot_held = false;
      write_lease = with_lease_state "released" r.write_lease;
      phase = some "cleaned";
    }

  pub cleanup-Cleaned :
      (r r' : Registry) (given : Option CleanupReceipt) (b : Binding)
      → apply_verified_cleanup digests r given b ≡ ok r'
      → Cleaned r r' given
  unfolding apply_verified_cleanup
  cleanup-Cleaned r r' none b h = cc
  cleanup-Cleaned r r' (some receipt) b h =
      let (u, bound, h1) = >>=-eq-ok (require_lifecycle_binding r b) _ h in
      let (v, verified, h2) = >>=-eq-ok (verify_cleanup_receipt digests receipt) _ h1 in
      record {
        receipt = receipt;
        present = refl;
        verified = ground arith;
        of_run = ground (arith, eq_iff receipt.run_id r.run_id);
        of_attempt = ground (arith, eq_iff receipt.attempt_id r.stage_attempt_id);
        of_epoch = ground (arith, eq_iff receipt.epoch_id r.epoch_id);
        result = ground arith;
      }

  cleanup-Separated :
      (r r' : Registry) (given : Option CleanupReceipt)
      → Cleaned r r' given
      → Separated r'.read_lease r'.write_lease
  cleanup-Separated r r' given c =
      rw c.result (inactive-Separated r.read_lease r.write_lease "released" refl)

  candidate-Separated :
      (r r' : Registry) (sha : Option String)
      → apply_candidate_green r sha ≡ ok r'
      → Separated r'.read_lease r'.write_lease
  unfolding apply_candidate_green
  candidate-Separated r r' sha h =
      let l : ReadLease = record {
        role = "independent-verifier";
        execution_class = "observe-only";
        mutation_contract = "no-protected-mutation";
        candidate_sha = sha;
      } in
      let e : r' ≡ record r {
        write_lease = with_lease_state "revoked" r.write_lease;
        read_lease = some l;
        phase = some "independent-verifying";
        candidate_sha = sha;
      } =
        ground arith in
      rw e (inactive-Separated (some l) r.write_lease "revoked" refl)

  rejection-Separated :
      (r r' : Registry) (sha lease : Option String)
      → apply_verification_rejection r sha lease ≡ ok r'
      → Separated r'.read_lease r'.write_lease
  unfolding apply_verification_rejection
  rejection-Separated r r' sha lease h = ground arith

  -- Whatever the event, if it is accepted, the writer and the verifier stay apart.
  event-Separated :
      (r r' : Registry) (e : Event)
      → apply_event digests r e ≡ ok r'
      → Separated r.read_lease r.write_lease
      → Separated r'.read_lease r'.write_lease
  unfolding apply_event apply_self_test_failure apply_service_replacement apply_member_cleanup
      apply_group_cleanup
  event-Separated r r' (candidate_green sha b) h s = candidate-Separated r r' sha (ground arith)
  event-Separated r r' (verification_rejected sha lease) h s = rejection-Separated r r' sha lease h
  event-Separated r r' (terminal_requested receipt status b) h s =
      let (next, cleaned, e) = >>=-eq-ok (apply_verified_cleanup digests r receipt b) _ h in
      let kept = cleanup-Separated r next receipt (cleanup-Cleaned r next receipt b cleaned) in
      ground arith
  event-Separated r r' (slot_release_requested receipt b) h s =
      cleanup-Separated r r' receipt (cleanup-Cleaned r r' receipt b h)
  event-Separated r r' (group_cleanup_completed session none) h s = ground arith
  event-Separated r r' (group_cleanup_completed session (some inventory)) h s = ground arith
  event-Separated r r' (self_test_failed a w f b) h s = ground arith
  event-Separated r r' _ h s = ground arith

  -- From a registry where they are apart, no event that is accepted leaves an active write lease
  -- beside the read lease of the independent verifier.
  pub apply_resource_event-Separated :
      (r r' : Registry) (e : Event)
      → apply_resource_event digests r e ≡ ok r'
      → Separated r.read_lease r.write_lease
      → Separated r'.read_lease r'.write_lease
  unfolding apply_resource_event create_resource_registry
  apply_resource_event-Separated r r' e h s = event-Separated r r' e (ground arith) s
