-- ===== src/Resources/Reusable.antt =====
-- A registry that an event leaves is a registry that the next event accepts.
use issue_orchestration.Prelude.{
  String, true, false, Option, some, none, List, ◌≡◌, refl, sym, map, arith, ok, >>=-eq-ok,
  is_printed, eq_refl, includes,
}
use issue_orchestration.Resources.Registry.{
  WriteLease, ReadLease, Resource, Registry, create_resource_registry, validate_registry,
  validate_resources, bad_write_lease,
}
use issue_orchestration.Resources.Receipt.{Digests, CleanupReceipt}
use issue_orchestration.Resources.Event.{
  Event, self_test_failed, cleanup_started, candidate_green, verification_rejected,
  service_replaced, stage_cleanup_completed, terminal_requested, slot_release_requested,
  leader_exited, retry_started, worktree_cleanup_requested, member_cleanup_completed,
  group_cleanup_completed, with_lease_state, update_first, apply_self_test_failure,
  apply_candidate_green, apply_verification_rejection, apply_service_replacement,
  apply_member_cleanup, apply_group_cleanup, apply_verified_cleanup, apply_event,
  apply_resource_event, text_of, with_state, replaced, member_cleaned, group_cleaned, entry_id,
}
use issue_orchestration.Resources.Leases.{Cleaned, cleanup-Cleaned}
use issue_orchestration.Resources.Valid.{
  ids, Keeps, validate-Parts, validate-record, lease_state, validate-map, ids-map,
  validate-update_first, ids-update_first, with_state-Keeps, replaced-Keeps, member-Keeps,
  group-Keeps,
}

-- A rejection names its next write lease by a text that is not blank.
abbrev pub NamesLease : Event → Type 0
NamesLease (verification_rejected sha lease) = is_printed (text_of lease) ≡ true
NamesLease _ = Unit

abbrev IsValid : Registry → Type 0
IsValid r = validate_registry r ≡ ok tt

-- The write lease alone is changed.
lease-IsValid :
    (r : Registry) (w : Option WriteLease)
    → IsValid r
    → bad_write_lease r.stage_attempt_id w ≡ false
    → IsValid (record r { write_lease = w })
lease-IsValid r w h fine =
    validate-record r w r.resources h fine refl (validate-Parts r h).resources

resources-IsValid :
    (r : Registry) (xs : List Resource)
    → IsValid r
    → ids xs ≡ ids r.resources
    → validate_resources r.run_id r.stage_attempt_id xs ≡ ok tt
    → IsValid (record r { resources = xs })
resources-IsValid r xs h same valid =
    validate-record r r.write_lease xs h (validate-Parts r h).lease same valid

map-IsValid :
    (r : Registry) (change : Resource → Resource)
    → Keeps r.run_id r.stage_attempt_id change
    → IsValid r
    → IsValid (record r { resources = map change r.resources })
map-IsValid r change k h =
    resources-IsValid r (map change r.resources) h
      (ids-map r.run_id r.stage_attempt_id change k r.resources)
      (validate-map r.run_id r.stage_attempt_id change k r.resources (validate-Parts r h).resources)

update-IsValid :
    (r : Registry) (id : String) (change : Resource → Resource)
    → Keeps r.run_id r.stage_attempt_id change
    → IsValid r
    → IsValid (record r { resources = update_first id change r.resources })
update-IsValid r id change k h =
    resources-IsValid r (update_first id change r.resources) h
      (ids-update_first r.run_id r.stage_attempt_id change k id r.resources)
      (validate-update_first r.run_id r.stage_attempt_id change k id r.resources
        (validate-Parts r h).resources)

failure-IsValid :
    (r r' : Registry) (a w f : Option String)
    → apply_self_test_failure r a w f ≡ ok r'
    → IsValid r
    → IsValid r'
unfolding apply_self_test_failure validate_registry
failure-IsValid r r' a w f h v =
    let e : r' ≡ record r {
      self_test_cycles = r'.self_test_cycles;
      first_failure_refs = r'.first_failure_refs;
    } =
      ground arith in
    rw e v

candidate-IsValid :
    (r r' : Registry) (sha : Option String)
    → apply_candidate_green r sha ≡ ok r'
    → IsValid r
    → IsValid r'
unfolding apply_candidate_green
candidate-IsValid r r' sha h v =
    let l : ReadLease = record {
      role = "independent-verifier";
      execution_class = "observe-only";
      mutation_contract = "no-protected-mutation";
      candidate_sha = sha;
    } in
    let e : r' ≡ record r {
      write_lease = with_lease_state "revoked" r.write_lease;
      read_lease = some l;
      phase = some "independent-verifying";
      candidate_sha = sha;
    } =
      ground arith in
    rw e (
      unfold validate_registry in
      lease-IsValid r (with_lease_state "revoked" r.write_lease) v (
        lease_state r.stage_attempt_id "revoked" r.write_lease (unfold includes in refl)
          (validate-Parts r v).lease))

rejection-IsValid :
    (r r' : Registry) (sha lease : Option String)
    → apply_verification_rejection r sha lease ≡ ok r'
    → is_printed (text_of lease) ≡ true
    → IsValid r
    → IsValid r'
unfolding apply_verification_rejection
rejection-IsValid r r' sha lease h printed v =
    let w : WriteLease = record {
      id = text_of lease;
      owner_attempt_id = r.stage_attempt_id;
      mode = "write";
      state = "active";
    } in
    let e : r' ≡ record r {
      read_lease = none;
      write_lease = some w;
      phase = some "implementing-self-testing";
    } =
      ground arith in
    rw e (
      unfold validate_registry in
      lease-IsValid r (some w) v
        (unfold bad_write_lease in ground (arith, printed, eq_refl r.stage_attempt_id)))

create-IsValid : (r n : Registry) → create_resource_registry r ≡ ok n → (n ≡ r) × IsValid r
unfolding create_resource_registry
create-IsValid r n h = let (u, v, done) = >>=-eq-ok (validate_registry r) _ h in (ground arith, v)

create-valid : (r : Registry) → IsValid r → create_resource_registry r ≡ ok r
unfolding create_resource_registry
create-valid r v = rw v

module _ (digests : Digests) where
  cleanup-IsValid :
      (r r' : Registry) (given : Option CleanupReceipt)
      → Cleaned digests r r' given
      → IsValid r
      → IsValid r'
  cleanup-IsValid r r' given c v = rw c.result (
      unfold validate_registry in
      lease-IsValid r (with_lease_state "released" r.write_lease) v (
        lease_state r.stage_attempt_id "released" r.write_lease (unfold includes in refl)
          (validate-Parts r v).lease))

  event-IsValid :
      (r r' : Registry) (e : Event)
      → apply_event digests r e ≡ ok r'
      → NamesLease e
      → IsValid r
      → IsValid r'
  unfolding apply_event apply_service_replacement apply_member_cleanup apply_group_cleanup
      validate_registry
  event-IsValid r r' (candidate_green sha b) h n v = candidate-IsValid r r' sha (ground arith) v
  event-IsValid r r' (verification_rejected sha lease) h n v =
      rejection-IsValid r r' sha lease h n v
  event-IsValid r r' (self_test_failed a w f b) h n v = failure-IsValid r r' a w f (ground arith) v
  event-IsValid r r' (service_replaced id ds ps) h n v =
      let e : r' ≡ record r { resources = update_first id (replaced ds ps) r.resources } =
        ground arith in
      rw e
        (update-IsValid r id (replaced ds ps) (replaced-Keeps r.run_id r.stage_attempt_id ds ps) v)
  event-IsValid r r' (leader_exited id ds ps) h n v =
      let change = with_state "leader-exited-unverified" in
      let e : r' ≡ record r { resources = update_first id change r.resources } = ground arith in
      rw e (
        update-IsValid r id change
          (with_state-Keeps r.run_id r.stage_attempt_id "leader-exited-unverified"
            (unfold is_printed in refl))
          v)
  event-IsValid r r' (terminal_requested receipt status b) h n v =
      let (next, cleaned, done) = >>=-eq-ok (apply_verified_cleanup digests r receipt b) _ h in
      let kept =
        cleanup-IsValid r next receipt (cleanup-Cleaned digests r next receipt b cleaned) v in
      let e : r' ≡ record next { phase = r'.phase } = ground arith in rw e kept
  event-IsValid r r' (slot_release_requested receipt b) h n v =
      cleanup-IsValid r r' receipt (cleanup-Cleaned digests r r' receipt b h) v
  event-IsValid r r' (member_cleanup_completed session member) h n v =
      let e : r' ≡ record r { resources = map (member_cleaned member) r.resources } =
        ground arith in
      rw e
        (map-IsValid r (member_cleaned member) (member-Keeps r.run_id r.stage_attempt_id member) v)
  event-IsValid r r' (group_cleanup_completed session none) h n v = absurd (ground arith)
  event-IsValid r r' (group_cleanup_completed session (some inventory)) h n v =
      let left = map entry_id inventory in
      let e : r' ≡ record r { resources = map (group_cleaned left) r.resources } = ground arith in
      rw e (map-IsValid r (group_cleaned left) (group-Keeps r.run_id r.stage_attempt_id left) v)
  event-IsValid r r' (stage_cleanup_completed d) h n v =
      let e : r' ≡ record r { cleanup_receipt_digest = d } = ground arith in rw e v
  event-IsValid r r' (retry_started a w p) h n v =
      let e : r' ≡ record r { retry_requested = r'.retry_requested } = ground arith in rw e v
  event-IsValid r r' (worktree_cleanup_requested true) h n v =
      let e : r' ≡ record r {
        phase = some "quarantined-dirty";
        slot_held = true;
        delivery_authorized = false;
      } =
        ground arith in
      rw e v
  event-IsValid r r' (worktree_cleanup_requested false) h n v =
      let e : r' ≡ r = ground arith in rw e v
  event-IsValid r r' cleanup_started h n v =
      let e : r' ≡ record r { phase = some "cleaning" } = ground arith in rw e v
  event-IsValid r r' _ h n v = cc

  -- An event that is accepted leaves a registry that `createResourceRegistry` accepts, unchanged:
  -- no later event is refused for its schema, its owner binding or its resources. The event must
  -- name the next write lease, if it rejects a candidate, by a text that is not blank.
  pub apply_resource_event-reusable :
      (r r' : Registry) (e : Event)
      → NamesLease e
      → apply_resource_event digests r e ≡ ok r'
      → create_resource_registry r' ≡ ok r'
  unfolding apply_resource_event
  apply_resource_event-reusable r r' e n h =
      let (u, made, done) = >>=-eq-ok (create_resource_registry r) _ h in
      let (same, v) = create-IsValid r u made in
      create-valid r' (event-IsValid r r' e (rw (sym same) done) n v)
