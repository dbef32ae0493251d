-- ===== src/Resources/History.antt =====
-- What no event of the registry rewrites: the owner, the first failure and the cycles before.
use issue_orchestration.Prelude.{
  ◌+◌, String, Option, some, none, List, [], ◌∷◌, ◌++◌, ◌≡◌, ◌⊎◌, inl, inr, refl, arith, ok,
  >>=-eq-ok, length,
}
use issue_orchestration.Resources.Registry.{Cycle, Registry, create_resource_registry}
use issue_orchestration.Resources.Receipt.{Digests, CleanupReceipt}
use issue_orchestration.Resources.Event.{
  Event, self_test_failed, terminal_requested, slot_release_requested, group_cleanup_completed,
  apply_self_test_failure, apply_candidate_green, apply_verification_rejection,
  apply_service_replacement, apply_member_cleanup, apply_group_cleanup, apply_verified_cleanup,
  apply_event, apply_resource_event, first_failure, text_of,
}
use issue_orchestration.Resources.Leases.{Cleaned, cleanup-Cleaned}

-- The first failure, once there is one, stays the first.
abbrev pub KeepsFirst : List String → List String → Type 0
KeepsFirst [] after = Unit
KeepsFirst (x ∷ xs) after = after ≡ x ∷ xs

KeepsFirst-refl : (refs : List String) → KeepsFirst refs refs
KeepsFirst-refl [] = tt
KeepsFirst-refl (x ∷ xs) = refl

KeepsFirst-first_failure :
    (refs : List String) (r : String) → KeepsFirst refs (first_failure refs r)
KeepsFirst-first_failure [] r = tt
KeepsFirst-first_failure (x ∷ xs) r = refl

-- The registry belongs to the same attempt, and its history has at most grown by one cycle, that
-- carries the next number.
pub record Continues (r r' : Registry) : Type 0 where
  pub run : r'.run_id ≡ r.run_id
  pub attempt : r'.stage_attempt_id ≡ r.stage_attempt_id
  pub worktree : r'.issue_worktree_id ≡ r.issue_worktree_id
  pub epoch : r'.epoch_id ≡ r.epoch_id
  pub first : KeepsFirst r.first_failure_refs r'.first_failure_refs
  pub cycles :
      (r'.self_test_cycles ≡ r.self_test_cycles)
      ⊎ ((c : Cycle) × (r'.self_test_cycles ≡ r.self_test_cycles ++ c ∷ [])
          × (c.cycle ≡ length r.self_test_cycles + 1))

-- Nothing of the history is touched.
record SameHistory (r r' : Registry) : Type 0 where
  run : r'.run_id ≡ r.run_id
  attempt : r'.stage_attempt_id ≡ r.stage_attempt_id
  worktree : r'.issue_worktree_id ≡ r.issue_worktree_id
  epoch : r'.epoch_id ≡ r.epoch_id
  first : r'.first_failure_refs ≡ r.first_failure_refs
  cycles : r'.self_test_cycles ≡ r.self_test_cycles

SameHistory-Continues : {r r' : Registry} → SameHistory r r' → Continues r r'
SameHistory-Continues {r} s = record {
  run = s.run;
  attempt = s.attempt;
  worktree = s.worktree;
  epoch = s.epoch;
  first = rw s.first (KeepsFirst-refl r.first_failure_refs);
  cycles = inl s.cycles;
}

failure-Continues :
    (r r' : Registry) (a w f : Option String)
    → apply_self_test_failure r a w f ≡ ok r'
    → Continues r r'
unfolding apply_self_test_failure
failure-Continues r r' a w f h =
    let c : Cycle = record {
      cycle = length r.self_test_cycles + 1;
      outcome = "failed";
      failure_ref = text_of f;
      attempt_id = r.stage_attempt_id;
      worktree_id = r.issue_worktree_id;
    } in
    let e : r' ≡ record r {
      self_test_cycles = r.self_test_cycles ++ c ∷ [];
      first_failure_refs = first_failure r.first_failure_refs (text_of f);
    } =
      ground arith in
    rw e (record {
      run = refl;
      attempt = refl;
      worktree = refl;
      epoch = refl;
      first = KeepsFirst-first_failure r.first_failure_refs (text_of f);
      cycles = inr (c, refl, refl);
    })

module _ (digests : Digests) where
  cleanup-SameHistory :
      (r r' : Registry) (given : Option CleanupReceipt)
      → Cleaned digests r r' given
      → SameHistory r r'
  cleanup-SameHistory r r' given c = ground (arith, c.result)

  event-Continues : (r r' : Registry) (e : Event) → apply_event digests r e ≡ ok r' → Continues r r'
  unfolding apply_event apply_candidate_green apply_verification_rejection apply_service_replacement
      apply_member_cleanup apply_group_cleanup
  event-Continues r r' (self_test_failed a w f b) h = failure-Continues r r' a w f (ground arith)
  event-Continues r r' (terminal_requested receipt status b) h =
      let (next, cleaned, e) = >>=-eq-ok (apply_verified_cleanup digests r receipt b) _ h in
      let same =
        cleanup-SameHistory r next receipt (cleanup-Cleaned digests r next receipt b cleaned) in
      SameHistory-Continues (ground arith)
  event-Continues r r' (slot_release_requested receipt b) h =
      SameHistory-Continues
        (cleanup-SameHistory r r' receipt (cleanup-Cleaned digests r r' receipt b h))
  event-Continues r r' (group_cleanup_completed session none) h =
      SameHistory-Continues (ground arith)
  event-Continues r r' (group_cleanup_completed session (some inventory)) h =
      SameHistory-Continues (ground arith)
  event-Continues r r' _ h = SameHistory-Continues (ground arith)

  -- Whatever event is accepted, the registry stays with its run, attempt, worktree and epoch; the
  -- first failure that it has noted stays; and its self-test cycles are those before, or those and
  -- one more, which has the next number.
  pub apply_resource_event-Continues :
      (r r' : Registry) (e : Event) → apply_resource_event digests r e ≡ ok r' → Continues r r'
  unfolding apply_resource_event create_resource_registry
  apply_resource_event-Continues r r' e h = event-Continues r r' e (ground arith)
