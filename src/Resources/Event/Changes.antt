-- ===== src/Resources/Event/Changes.antt =====
-- What the events change in a registry: the functions that `applyResourceEvent` calls.
use issue_orchestration.Prelude.{
  ◌+◌, String, Bool, true, false, Option, some, none, List, [], ◌∷◌, ◌++◌, ◌==◌, not, ◌&&◌, ◌||◌,
  find, map, includes, is_text, is_hash, is_sha, same, length, if◌then◌else◌, Result, ok, err,
  reject, ◌>>◌,
}
use issue_orchestration.Resources.Registry.{
  Code, internal_red_attempt_rebuild_forbidden, self_test_failure_evidence,
  candidate_identity_missing, candidate_writer_missing, verification_rejection_identity,
  retained_service_owner_missing, cleanup_post_inventory_required, resource_ledger_binding_required,
  resource_dispatch_binding_required, resource_epoch_mismatch, WriteLease, ReadLease, Resource,
  Registry,
}

-- The fields that requireLifecycleBinding reads of an event.
pub record Binding : Type 0 where
  pub ledger_event_digest : Option String
  pub dispatch_receipt_digest : Option String
  pub epoch_id : Option String

-- An entry of a post inventory: a resource's id, or an object with one.
pub data Entry : Type 0 where
  named : String → Entry
  resource : String → Entry

-- requireLifecycleBinding
unfoldable pub require_lifecycle_binding : Registry → Binding → Result Code (Unit {0})
require_lifecycle_binding r b = do
  reject (not (is_hash b.ledger_event_digest)) resource_ledger_binding_required
  reject (not (is_hash b.dispatch_receipt_digest)) resource_dispatch_binding_required
  reject (not (same b.epoch_id (some r.epoch_id))) resource_epoch_mismatch

-- value && value !== other
abbrev differs : Option String → String → Bool
differs none other = false
differs (some v) other = not (v == "") && not (v == other)

abbrev pub text_of : Option String → String
text_of none = ""
text_of (some s) = s

abbrev pub first_failure : List String → String → List String
first_failure [] failure_ref = failure_ref ∷ []
first_failure (x ∷ xs) failure_ref = x ∷ xs

-- applySelfTestFailure
unfoldable pub apply_self_test_failure :
    Registry → Option String → Option String → Option String → Result Code Registry
apply_self_test_failure r new_attempt_id new_worktree_id failure_ref = do
  reject (differs new_attempt_id r.stage_attempt_id || differs new_worktree_id r.issue_worktree_id)
      internal_red_attempt_rebuild_forbidden
  reject (not (is_text failure_ref)) self_test_failure_evidence
  ok (record r {
    self_test_cycles =
        r.self_test_cycles
        ++ record {
          cycle = length r.self_test_cycles + 1;
          outcome = "failed";
          failure_ref = text_of failure_ref;
          attempt_id = r.stage_attempt_id;
          worktree_id = r.issue_worktree_id;
        }
          ∷ [];
    first_failure_refs = first_failure r.first_failure_refs (text_of failure_ref);
  })

-- next.writeLease?.state === 'active'
abbrev pub has_active_writer : Option WriteLease → Bool
has_active_writer none = false
has_active_writer (some w) = w.state == "active"

-- next.writeLease.state = state
abbrev pub with_lease_state : String → Option WriteLease → Option WriteLease
with_lease_state s none = none
with_lease_state s (some w) = some (record w { state = s })

-- applyCandidateGreen
unfoldable pub apply_candidate_green : Registry → Option String → Result Code Registry
apply_candidate_green r candidate_sha = do
  reject (not (is_sha candidate_sha)) candidate_identity_missing
  reject (not (has_active_writer r.write_lease)) candidate_writer_missing
  ok (record r {
    write_lease = with_lease_state "revoked" r.write_lease;
    read_lease = some (record {
      role = "independent-verifier";
      execution_class = "observe-only";
      mutation_contract = "no-protected-mutation";
      candidate_sha = candidate_sha;
    });
    phase = some "independent-verifying";
    candidate_sha = candidate_sha;
  })

-- next.readLease?.candidateSha
abbrev read_candidate : Option ReadLease → Option String
read_candidate none = none
read_candidate (some l) = l.candidate_sha

-- applyVerificationRejection
unfoldable pub apply_verification_rejection :
    Registry → Option String → Option String → Result Code Registry
apply_verification_rejection r candidate_sha next_write_lease_id = do
  reject
      (not (same r.phase (some "independent-verifying"))
        || not (same (read_candidate r.read_lease) candidate_sha)
        || not (is_text next_write_lease_id))
      verification_rejection_identity
  ok (record r {
    read_lease = none;
    write_lease = some (record {
      id = text_of next_write_lease_id;
      owner_attempt_id = r.stage_attempt_id;
      mode = "write";
      state = "active";
    });
    phase = some "implementing-self-testing";
  })

-- [...new Set(values)], where `seen` are the values that come before
unfoldable pub unique_from : List String → List String → List String
unique_from seen [] = []
unique_from seen (x ∷ xs) =
    let rest = unique_from (x ∷ seen) xs in if includes seen x then rest else x ∷ rest

-- A change of the first resource that has the id: `find`, and a write to what it returns.
unfoldable pub update_first : String → (Resource → Resource) → List Resource → List Resource
update_first id change [] = []
update_first id change (x ∷ xs) =
    let rest = update_first id change xs in if x.resource_id == id then change x ∷ xs else x ∷ rest

abbrev not_owned : Registry → Option Resource → Bool
not_owned r none = true
not_owned r (some x) =
    not (x.owner_run_id == r.run_id) || not (x.owner_attempt_id == r.stage_attempt_id)

-- What a replaced service has anew.
abbrev pub replaced : List String → List String → Resource → Resource
replaced descendants ports x = record x {
  state = some "active";
  descendants = unique_from [] descendants;
  ports = unique_from [] ports;
}

-- applyServiceReplacement
unfoldable pub apply_service_replacement :
    Registry → String → List String → List String → Result Code Registry
apply_service_replacement r id descendants ports = do
  reject (not_owned r (find (λ x. x.resource_id == id) r.resources)) retained_service_owner_missing
  ok (record r { resources = update_first id (replaced descendants ports) r.resources })

abbrev pub with_state : String → Resource → Resource
with_state s x = record x { state = some s }

-- The body of the loop of applyMemberCleanup.
abbrev pub member_cleaned : Option String → Resource → Resource
member_cleaned member_id x =
    if x.owner_class == "group-owned"
    then with_state "retained" x
    else if same x.member_id member_id
    then with_state "removed-clean" x
    else x

-- applyMemberCleanup
unfoldable pub apply_member_cleanup : Registry → Option String → Registry
apply_member_cleanup r member_id = record r {
  resources = map (member_cleaned member_id) r.resources;
}

abbrev pub entry_id : Entry → String
entry_id (named s) = s
entry_id (resource s) = s

-- The body of the loop of applyGroupCleanup, over the ids that remain.
abbrev pub group_cleaned : List String → Resource → Resource
group_cleaned remaining x =
    if x.owner_class == "externally-owned"
    then x
    else if includes remaining x.resource_id
    then with_state "cleanup-failed" x
    else with_state "removed-clean" x

-- applyGroupCleanup
unfoldable pub apply_group_cleanup : Registry → Option (List Entry) → Result Code Registry
apply_group_cleanup r none = err cleanup_post_inventory_required
apply_group_cleanup r (some post_inventory) =
    ok (record r { resources = map (group_cleaned (map entry_id post_inventory)) r.resources })
