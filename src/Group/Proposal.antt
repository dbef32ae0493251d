-- ===== src/Group/Proposal.antt =====
-- `proposalIsEligible` and `evaluateGroupEligibility`. The digest of a definition is a parameter.
use issue_orchestration.Prelude.{
  String, Bool, true, false, Option, some, none, List, [], ◌∷◌, ◌==◌, not, ◌&&◌, ◌||◌, any, every,
  length, ltb, eqb, is_hash, is_sha, is_printed, is_distinct, includes, if◌then◌else◌,
}
use issue_orchestration.Landing.Lane.{is_repository}

pub record ProposedMember : Type 0 where
  pub issue_id : String
  pub repository : String
  pub epoch_id : String
  pub conflict_keys : List String
  pub shared_source_keys : List String
  pub low_conflict_parallel_eligible : Option Bool
  pub independently_deliverable : Bool
  pub rollback_independent : Bool
  pub classification_digest : Option String
  pub routing_input_digest : Option String
  pub test_contract_digest : Option String
  pub stage_profile_ids : List (String × String)
  pub allowed_paths : List String

-- What `expectedDefinitionDigest` takes the digest of.
pub record Definition : Type 0 where
  pub repository : String
  pub base_epoch : String
  pub base_sha : String
  pub member_issue_ids : List String
  pub member_order : List String
  pub shared_conflict_keys : List String
  pub members : List ProposedMember

-- The input; a text that is missing is the empty text.
pub record Proposal : Type 0 where
  pub schema : String
  pub group_id : String
  pub definition : Definition
  pub group_definition_digest : String
  pub group_worktree_identity : String
  pub group_branch_identity : String
  pub test_owner_identity : String
  pub implementer_continuity_identity : String
  pub resource_registry_identity : String
  pub accepted_without_modification : Bool

-- JSON.stringify(left) === JSON.stringify(right), of two lists of texts.
unfoldable pub same_texts : List String → List String → Bool
same_texts [] [] = true
same_texts (x ∷ xs) (y ∷ ys) = x == y && same_texts xs ys
same_texts _ _ = false

abbrev is_false : Option Bool → Bool
is_false none = false
is_false (some value) = not value

-- The test of one member, at its place among the identifiers.
unfoldable pub eligible_member : Definition → ProposedMember → String → Bool
eligible_member d m id =
    m.issue_id == id
    && m.repository == d.repository
    && m.epoch_id == d.base_epoch
    && any (λ key. includes d.shared_conflict_keys key) m.conflict_keys
    && ltb 0 (length m.shared_source_keys)
    && is_false m.low_conflict_parallel_eligible
    && m.independently_deliverable
    && m.rollback_independent
    && is_hash m.classification_digest
    && is_hash m.routing_input_digest
    && is_hash m.test_contract_digest
    && ltb 0 (length m.stage_profile_ids)
    && ltb 0 (length m.allowed_paths)
    && every is_printed m.allowed_paths

-- input.members.every(...)
unfoldable pub eligible_members : Definition → List ProposedMember → List String → Bool
eligible_members d [] ids = true
eligible_members d (m ∷ ms) [] = false
eligible_members d (m ∷ ms) (id ∷ ids) = eligible_member d m id && eligible_members d ms ids

unfoldable pub bad_definition : Definition → Bool
bad_definition d =
    not (is_repository d.repository)
    || not (is_printed d.base_epoch)
    || not (is_sha (some d.base_sha))
    || ltb (length d.member_issue_ids) 2
    || not (is_distinct d.member_issue_ids)
    || not (same_texts d.member_order d.member_issue_ids)
    || eqb (length d.shared_conflict_keys) 0
    || not (is_distinct d.shared_conflict_keys)
    || not (eqb (length d.members) (length d.member_issue_ids))

unfoldable pub bad_identities : Proposal → Bool
bad_identities p =
    not (p.schema == "issue-orchestration.acceptance-group-proposal.v1")
    || not (is_printed p.group_id)
    || not (is_printed p.group_worktree_identity)
    || not (is_printed p.group_branch_identity)
    || not (is_printed p.test_owner_identity)
    || not (is_printed p.implementer_continuity_identity)
    || not (is_printed p.resource_registry_identity)
    || not p.accepted_without_modification

pub data Eligibility : Type 0 where
  ordinary_per_issue : Eligibility
  acceptance_group_session : String → List String → Eligibility

module _ (digest : Definition → String) where
  -- proposalIsEligible
  unfoldable pub proposal_is_eligible : Proposal → Bool
  proposal_is_eligible p =
      not (
        bad_identities p
        || bad_definition p.definition
        || not (p.group_definition_digest == digest p.definition))
      && eligible_members p.definition p.definition.members p.definition.member_issue_ids

  -- evaluateGroupEligibility
  unfoldable pub evaluate_group_eligibility : Proposal → Eligibility
  evaluate_group_eligibility p =
      if not (proposal_is_eligible p)
      then ordinary_per_issue
      else acceptance_group_session p.group_id p.definition.member_order
