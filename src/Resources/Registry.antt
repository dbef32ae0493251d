-- ===== src/Resources/Registry.antt =====
-- `createResourceRegistry` and `validateRegistry`. A field that the source reads as missing or empty
-- alike is a text that may be empty; one that it tells apart is an `Option`.
use issue_orchestration.Prelude.{
  ℕ, String, Bool, false, Option, some, none, List, [], ◌∷◌, ◌==◌, not, ◌&&◌, ◌||◌, any, every, map,
  includes, is_distinct, is_printed, is_hash, is_sha, is_digit, codes, starts_with, split_last, leb,
  eqb, Result, ok, reject, ◌>>◌,
}

pub data Code : Type 0 where
  resource_registry_schema resource_registry_owner_binding resource_registry_epoch_binding : Code
  resource_registry_contract_binding resource_registry_identity : Code
  internal_red_attempt_rebuild_forbidden self_test_failure_evidence candidate_identity_missing :
      Code
  candidate_writer_missing verification_rejection_identity retained_service_owner_missing : Code
  cleanup_post_inventory_required resource_ledger_binding_required : Code
  resource_dispatch_binding_required resource_epoch_mismatch cleanup_receipt_required : Code
  cleanup_receipt_binding_required internal_red_cleanup_forbidden cleanup_receipt_digest : Code
  resource_unowned_observation process_descendant_still_live docker_resource_still_present : Code
  retry_owner_reuse_forbidden group_session_binding_mismatch resource_event_unsupported : Code
  machine_resource_verifier_required cleanup_receipt_schema : Code
  cleanup_post_inventory_not_empty cleanup_lock_release_observation_required : Code
  cleanup_lock_final_filesystem_observation_required cleanup_post_inventory_digest : Code

pub record WriteLease : Type 0 where
  pub id : String
  pub owner_attempt_id : String
  pub mode : String
  pub state : String

pub record ReadLease : Type 0 where
  pub role : String
  pub execution_class : String
  pub mutation_contract : String
  pub candidate_sha : Option String

pub record Resource : Type 0 where
  pub resource_id : String
  pub resource_type : String
  pub owner_class : String
  pub owner_run_id : String
  pub owner_attempt_id : String
  pub member_id : Option String
  pub state : Option String
  pub descendants : List String
  pub ports : List String

pub record Cycle : Type 0 where
  pub cycle : ℕ
  pub outcome : String
  pub failure_ref : String
  pub attempt_id : String
  pub worktree_id : String

pub record Retry : Type 0 where
  pub stage_attempt_id : String
  pub issue_worktree_id : String
  pub previous_owner_attempt_id : String

pub record Registry : Type 0 where
  pub schema : String
  pub run_id : String
  pub issue_id : String
  pub stage_attempt_id : String
  pub stage_role : String
  pub issue_worktree_id : String
  pub epoch_id : String
  pub allowed_paths_digest : Option String
  pub test_contract_digest : Option String
  pub base_sha : Option String
  pub write_lease : Option WriteLease
  pub read_lease : Option ReadLease
  pub resources : List Resource
  pub phase : Option String
  pub candidate_sha : Option String
  pub self_test_cycles : List Cycle
  pub first_failure_refs : List String
  pub cleanup_receipt_digest : Option String
  pub slot_held : Bool
  pub delivery_authorized : Bool
  pub retry_requested : Option Retry
  pub group_session_digest : Option String

-- RESOURCE_TYPES
abbrev pub resource_types : List String
resource_types =
    "worktree" ∷ "branch" ∷ "process-group" ∷ "port" ∷ "container" ∷ "network" ∷ "volume"
    ∷ "temporary-directory" ∷ "lock" ∷ "lease" ∷ []

is_alphanumeric : ℕ → Bool
is_alphanumeric c = (leb b'A' c && leb c b'Z') || (leb b'a' c && leb c b'z') || is_digit c

is_epoch_character : ℕ → Bool
unfolding is_alphanumeric
is_epoch_character c = is_alphanumeric c || eqb c b'.' || eqb c b'_' || eqb c b'-'

-- [A-Za-z0-9][A-Za-z0-9._-]*
is_epoch_name : List ℕ → Bool
unfolding is_alphanumeric is_epoch_character every
is_epoch_name [] = false
is_epoch_name (c ∷ cs) = is_alphanumeric c && every is_epoch_character cs

-- [0-9]+
is_number : List ℕ → Bool
unfolding every
is_number [] = false
is_number (c ∷ cs) = every is_digit (c ∷ cs)

drop_prefix : ℕ → List ℕ → List ℕ
drop_prefix ℕ.zero cs = cs
drop_prefix (ℕ.suc n) [] = []
drop_prefix (ℕ.suc n) (c ∷ cs) = drop_prefix n cs

-- EPOCH.test(value)
unfoldable pub is_epoch : String → Bool
unfolding codes starts_with split_last is_epoch_name is_number drop_prefix
is_epoch s =
    starts_with (codes s) (codes "epoch-") && elim (split_last b'-' (drop_prefix 6 (codes s))) [
      | none ↦ false
      | some (name, number) ↦ is_epoch_name name && is_number number
    ]

-- registry.writeLease is given and is no lease of this attempt
unfoldable pub bad_write_lease : String → Option WriteLease → Bool
unfolding includes
bad_write_lease stage_attempt_id none = false
bad_write_lease stage_attempt_id (some l) =
    not (is_printed l.id)
    || not (l.owner_attempt_id == stage_attempt_id)
    || not (l.mode == "write")
    || not (includes ("active" ∷ "revoked" ∷ "released" ∷ []) l.state)

-- The two tests of the loop over the resources.
unfoldable pub foreign_resource : String → String → Resource → Bool
foreign_resource run_id stage_attempt_id x =
    not (includes resource_types x.resource_type)
    || not (is_printed x.owner_class)
    || not (x.owner_run_id == run_id)
    || not (x.owner_attempt_id == stage_attempt_id)

unfoldable pub stateless : Resource → Bool
stateless x = elim x.state [ none ↦ false | some s ↦ not (is_printed s) ]

unfoldable pub validate_resources : String → String → List Resource → Result Code (Unit {0})
validate_resources run_id stage_attempt_id [] = ok tt
validate_resources run_id stage_attempt_id (x ∷ xs) = do
  reject (foreign_resource run_id stage_attempt_id x) resource_registry_owner_binding
  reject (stateless x) resource_registry_identity
  validate_resources run_id stage_attempt_id xs

unfoldable pub bad_base : Option String → Bool
bad_base none = false
bad_base (some sha) = not (is_sha (some sha))

-- validateRegistry
unfoldable pub validate_registry : Registry → Result Code (Unit {0})
validate_registry r = do
  reject (not (r.schema == "issue-orchestration.resource-registry.v1")) resource_registry_schema
  reject
      (any (λ field. not (is_printed field))
        (r.run_id ∷ r.issue_id ∷ r.stage_attempt_id ∷ r.stage_role ∷ r.issue_worktree_id ∷ []))
      resource_registry_owner_binding
  reject (not (is_epoch r.epoch_id)) resource_registry_epoch_binding
  reject (not (is_hash r.allowed_paths_digest) || not (is_hash r.test_contract_digest))
      resource_registry_contract_binding
  reject (bad_base r.base_sha) resource_registry_identity
  reject (bad_write_lease r.stage_attempt_id r.write_lease) resource_registry_owner_binding
  reject
      (any (λ id. id == "") (map (λ x. x.resource_id) r.resources)
        || not (is_distinct (map (λ x. x.resource_id) r.resources)))
      resource_registry_identity
  validate_resources r.run_id r.stage_attempt_id r.resources

-- createResourceRegistry; the lists that it adds where they are missing are empty here.
unfoldable pub create_resource_registry : Registry → Result Code Registry
create_resource_registry r = do validate_registry r; ok r
