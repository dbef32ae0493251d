-- ===== src/Landing/Transplant.antt =====
-- `recordCommitTransplant`. A text that is missing is the empty text. The digest of a receipt and the
-- payload of an event, made of the listed values, are parameters.
use issue_orchestration.Prelude.{
  ℕ, suc, String, Bool, false, Option, some, none, List, [], ◌∷◌, ◌++◌, ◌==◌, not, ◌&&◌, ◌||◌, any,
  length, eqb, includes, same, is_some, is_hash, is_sha, is_printed, lookup, put, if◌then◌else◌,
  Result, ok, err, reject, ◌>>=◌, ◌>>◌,
}
use issue_orchestration.Landing.Handoff.{HandoffMember, member_of}
use issue_orchestration.Landing.Slice.{ActiveSlice, Conflict, TransplantBody, TransplantReceipt}
use issue_orchestration.Landing.Log.{
  AttemptCode, Attempt, Projection, LogDigests, landing_reverifying, require_attempt,
  append_attempt_event, landing_slice_single_member_required,
  landing_transplant_active_slice_required, landing_transplant_member_atomicity,
  landing_conflict_automatic_choice_forbidden, landing_transplant_evidence_invalid,
  landing_transplant_source_replayed, landing_transplant_member_order,
  landing_transplant_equivalence_invalid, landing_conflict_resolution_slice_required, type_error,
}

pub record TransplantInput : Type 0 where
  pub member_issue_id : String
  pub source_commit : String
  pub issue_ids : List String
  pub conflict_manifest : List Conflict
  pub equivalence_disposition : String
  pub new_commit_sha : String
  pub parent_sha : String
  pub source_patch_id : String
  pub landed_patch_id : String
  pub source_tree_digest : String
  pub landed_tree_digest : String
  pub changed_paths : List String
  pub already_applied_evidence_digest : Option String
  pub candidate_sha : String
  pub terminal_receipt_digest : String

-- memberIndex, where a member stands at all
unfoldable pub index_of : List String → String → Option ℕ
index_of [] id = none
index_of (x ∷ xs) id =
    let rest = index_of xs id in
    if x == id then some 0 else elim rest [ none ↦ none | some n ↦ some (suc n) ]

-- { ...entries, [key]: a }
unfoldable pub with_entry {ℓ} : {A : Type ℓ} → String → A → List (String × A) → List (String × A)
with_entry key a entries =
    if is_some (lookup entries key) then put key a entries else entries ++ (key, a) ∷ []

abbrev is_only : List String → String → Bool
is_only (x ∷ []) id = x == id
is_only _ id = false

abbrev pub already_applied : TransplantInput → Bool
already_applied i = i.equivalence_disposition == "already-applied-equivalent"

unfoldable pub automatic_choice : Conflict → Bool
automatic_choice c = includes ("ours" ∷ "theirs" ∷ "automatic" ∷ "union" ∷ []) c.resolution_strategy

abbrev is_index : ℕ → Option ℕ → Bool
is_index n none = false
is_index n (some m) = eqb n m

unfoldable pub bad_evidence : String → HandoffMember → ActiveSlice → TransplantInput → Bool
bad_evidence tip member active i =
    not (same (some i.source_commit) member.commit_sha)
    || not (is_sha (some i.new_commit_sha))
    || (not (already_applied i) && i.new_commit_sha == i.source_commit)
    || (not (already_applied i) && not (i.parent_sha == tip))
    || (already_applied i && not (is_sha (some i.parent_sha)))
    || not (is_hash (some i.source_patch_id))
    || not (is_hash (some i.landed_patch_id))
    || not (is_hash (some i.source_tree_digest))
    || not (is_hash (some i.landed_tree_digest))
    || eqb (length i.changed_paths) 0
    || any (λ path. not (includes active.allowed_paths path)) i.changed_paths
    || not (is_sha (some i.candidate_sha))
    || not (i.candidate_sha == i.new_commit_sha)
    || not (is_hash (some i.terminal_receipt_digest))

unfoldable pub check_conflicts : ActiveSlice → TransplantInput → Result AttemptCode (Unit {0})
check_conflicts active i =
    if eqb (length i.conflict_manifest) 0
    then reject
        (not (active.slice_kind == "transplant-one-member-commit")
          || not (i.source_patch_id == i.landed_patch_id)
          || not (
              includes ("patch-and-tree-equivalent" ∷ "already-applied-equivalent" ∷ [])
                i.equivalence_disposition)
          || (already_applied i && not (is_hash i.already_applied_evidence_digest)))
        landing_transplant_equivalence_invalid
    else reject
        (not (active.slice_kind == "resolve-one-member-one-conflict-cluster")
          || any
              (λ c.
                not (same c.conflict_cluster_id active.conflict_cluster_id)
                || not (c.status == "resolved")
                || not (c.resolution_authority == "frozen-contract-unique")
                || not (is_hash c.difference_evidence_digest))
              i.conflict_manifest)
        landing_conflict_resolution_slice_required

abbrev slice_of : Option ActiveSlice → Result AttemptCode ActiveSlice
slice_of none = err landing_transplant_active_slice_required
slice_of (some active) = ok active

abbrev pub handed : Option HandoffMember → Result AttemptCode HandoffMember
handed none = err type_error
handed (some member) = ok member

unfoldable pub receipt_body :
    {Value : Type 0} → Projection Value → ActiveSlice → TransplantInput → TransplantBody
receipt_body p active i = record {
  schema = "issue-orchestration.commit-transplant-receipt.v1";
  repository = p.repository;
  landing_attempt_id = p.attempt_id;
  member_issue_id = i.member_issue_id;
  source_commit = i.source_commit;
  new_commit_sha = i.new_commit_sha;
  parent_sha = i.parent_sha;
  source_patch_id = i.source_patch_id;
  landed_patch_id = i.landed_patch_id;
  source_tree_digest = i.source_tree_digest;
  landed_tree_digest = i.landed_tree_digest;
  changed_paths = i.changed_paths;
  conflict_manifest = i.conflict_manifest;
  equivalence_disposition = i.equivalence_disposition;
  already_applied_evidence_digest = i.already_applied_evidence_digest;
  candidate_sha = i.candidate_sha;
  terminal_receipt_digest = i.terminal_receipt_digest;
  landing_work_plan_digest = active.landing_work_plan_digest;
  landing_slice_digest = active.landing_slice_digest;
  compiled_landing_prompt_digest = active.compiled_landing_prompt_digest;
  landing_work_shape = active.landing_work_shape;
  capability_requirement_digest = active.capability_requirement_digest;
  execution_route_decision_digest = active.execution_route_decision_digest;
  landing_checkpoint_digest = active.landing_checkpoint_digest;
  landing_continuation_receipt_digest = active.landing_continuation_receipt_digest;
}

-- seal(receipt, 'receiptDigest')
unfoldable pub sealed_receipt :
    {Value : Type 0}
    → (TransplantBody → String)
    → Projection Value
    → ActiveSlice
    → TransplantInput
    → TransplantReceipt
sealed_receipt digest p active i =
    let body : TransplantBody = receipt_body p active i in
    record { body = body; receipt_digest = digest body }

-- The projection after the transplant.
unfoldable pub transplanted :
    {Value : Type 0} → TransplantReceipt → TransplantInput → Projection Value → Projection Value
transplanted receipt i p = record p {
  transplant_operations = p.transplant_operations ++ receipt ∷ [];
  old_to_new_commit_sha_map =
      with_entry i.source_commit i.new_commit_sha p.old_to_new_commit_sha_map;
  source_patch_ids = with_entry i.source_commit i.source_patch_id p.source_patch_ids;
  landed_patch_ids = with_entry i.new_commit_sha i.landed_patch_id p.landed_patch_ids;
  source_tree_digests = with_entry i.source_commit i.source_tree_digest p.source_tree_digests;
  landed_tree_digests = with_entry i.new_commit_sha i.landed_tree_digest p.landed_tree_digests;
  conflict_manifest = p.conflict_manifest ++ i.conflict_manifest;
  member_disposition =
      with_entry i.member_issue_id "transplanted-reverify-required" p.member_disposition;
  current_landing_tip = if already_applied i then p.current_landing_tip else i.new_commit_sha;
  active_landing_slice = none;
  landing_checkpoint = none;
  landing_continuation_receipt_digest = none;
  state = landing_reverifying;
}

module _ {Value : Type 0} (digests : LogDigests Value) (receipt_digest : TransplantBody → String)
    (payload : List String → Value) where
  -- requireMember
  unfoldable pub require_landing_member :
      Attempt Value → String → Result AttemptCode (Option HandoffMember)
  require_landing_member a id = do
    require_attempt digests a
    reject (not (is_printed id) || not (is_some (lookup a.projection.source_member_commit_shas id)))
        landing_slice_single_member_required
    ok (member_of a.projection.source_member_mapping id)

  -- The tests of `recordCommitTransplant`, which give the active slice.
  unfoldable pub check_transplant : Attempt Value → TransplantInput → Result AttemptCode ActiveSlice
  check_transplant a i = do
    require_attempt digests a
    found ← require_landing_member a i.member_issue_id
    active ← slice_of a.projection.active_landing_slice
    reject
        (not (active.member_issue_id == i.member_issue_id)
          || not (active.source_commit == i.source_commit))
        landing_transplant_active_slice_required
    reject (not (is_only i.issue_ids i.member_issue_id)) landing_transplant_member_atomicity
    reject (any automatic_choice i.conflict_manifest) landing_conflict_automatic_choice_forbidden
    reject (not (is_sha (some i.source_commit))) landing_transplant_evidence_invalid
    member ← handed found
    reject (bad_evidence a.projection.current_landing_tip member active i)
        landing_transplant_evidence_invalid
    reject (is_some (lookup a.projection.old_to_new_commit_sha_map i.source_commit))
        landing_transplant_source_replayed
    reject
        (not (
          is_index (length a.projection.transplant_operations)
            (index_of a.projection.source_member_order i.member_issue_id)))
        landing_transplant_member_order
    check_conflicts active i
    ok active

  -- recordCommitTransplant
  unfoldable pub record_commit_transplant :
      Attempt Value → TransplantInput → Result AttemptCode (Attempt Value)
  record_commit_transplant a i = do
    active ← check_transplant a i
    let receipt : TransplantReceipt = sealed_receipt receipt_digest a.projection active i
    append_attempt_event digests (some a) "landing-commit.transplanted"
        (payload
          (i.member_issue_id ∷ i.source_commit ∷ i.new_commit_sha ∷ receipt.receipt_digest ∷ []))
        (transplanted receipt i a.projection)
