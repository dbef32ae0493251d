-- ===== src/Landing/Handoff.antt =====
-- `orderedMembers` and `validateHandoff`. The entries of `memberMapping` stand in the order of
-- `Object.entries`; of two entries with one commit, the later one counts, as in a `Map`.
use issue_orchestration.Prelude.{
  String, Bool, true, false, Option, some, none, List, [], ◌∷◌, ◌==◌, not, ◌||◌, any, map, length,
  eqb, last?, same, is_hash, is_sha, is_printed, is_distinct, if◌then◌else◌, Result, ok, err,
  reject, ◌>>=◌, ◌>>◌,
}
use issue_orchestration.Landing.Lane.{is_repository}

pub data HandoffCode : Type 0 where
  landing_source_member_mapping_invalid landing_handoff_invalid : HandoffCode
  landing_source_history_mutated landing_source_dirty_uncollected : HandoffCode
  landing_source_tip_prefix_mismatch : HandoffCode

pub record HandoffMember : Type 0 where
  pub commit_sha : Option String
  pub candidate_sha : Option String
  pub test_contract_digest : Option String
  pub receipt_digests : Option (List (String × String))

pub record Handoff : Type 0 where
  pub schema : String
  pub disposition : String
  pub repository : String
  pub source_epoch : String
  pub source_base : String
  pub source_worktree : String
  pub source_branch : String
  pub immutable_source_tip : String
  pub ordered_green_commit_prefix : List String
  pub required_reverification_classes : List String
  pub resource_retention_receipt_digest : String
  pub source_history_operations : List String
  pub dirty_inventory : List String
  pub untracked_inventory : List String
  pub member_mapping : List (String × HandoffMember)

abbrev or_entry : Option String → String → Bool → Option String
or_entry (some later) id match = some later
or_entry none id true = some id
or_entry none id false = none

-- byCommit.get(commitSha)
unfoldable pub by_commit : List (String × HandoffMember) → String → Option String
by_commit [] commit_sha = none
by_commit ((id, m) ∷ entries) commit_sha =
    or_entry (by_commit entries commit_sha) id (same m.commit_sha (some commit_sha))

-- handoff.memberMapping[issueId]
unfoldable pub member_of : List (String × HandoffMember) → String → Option HandoffMember
member_of [] id = none
member_of ((j, m) ∷ entries) id = if j == id then some m else member_of entries id

-- The texts among the values that `orderedMembers` looks up, all of which must be texts.
unfoldable pub texts : List (Option String) → Result HandoffCode (List String)
texts [] = ok []
texts (none ∷ xs) = err landing_source_member_mapping_invalid
texts (some x ∷ xs) = do
  reject (not (is_printed x)) landing_source_member_mapping_invalid
  rest ← texts xs
  ok (x ∷ rest)

-- orderedMembers
unfoldable pub ordered_members : Handoff → Result HandoffCode (List String)
ordered_members h = do
  members ← texts (map (by_commit h.member_mapping) h.ordered_green_commit_prefix)
  reject (not (is_distinct members) || not (eqb (length members) (length h.member_mapping)))
      landing_source_member_mapping_invalid
  ok members

abbrev bad_receipts : Option (List (String × String)) → Bool
bad_receipts none = true
bad_receipts (some digests) = any (λ d. not (is_hash (some d.1))) digests

-- The test of one member of the mapping.
unfoldable pub bad_member : Option HandoffMember → Bool
bad_member none = true
bad_member (some m) =
    not (is_sha m.candidate_sha)
    || not (is_sha m.commit_sha)
    || not (is_hash m.test_contract_digest)
    || bad_receipts m.receipt_digests

unfoldable pub bad_handoff : Handoff → Bool
bad_handoff h =
    not (h.schema == "issue-orchestration.landing-handoff.v1")
    || not (h.disposition == "landing-handoff-required")
    || not (is_repository h.repository)
    || not (is_printed h.source_epoch)
    || not (is_sha (some h.source_base))
    || not (is_printed h.source_worktree)
    || not (is_printed h.source_branch)
    || not (is_sha (some h.immutable_source_tip))
    || eqb (length h.ordered_green_commit_prefix) 0
    || any (λ c. not (is_sha (some c))) h.ordered_green_commit_prefix
    || any (λ c. not (is_printed c)) h.required_reverification_classes
    || not (is_hash (some h.resource_retention_receipt_digest))

-- validateHandoff
unfoldable pub validate_handoff : Handoff → Result HandoffCode (List String)
validate_handoff h = do
  reject (bad_handoff h) landing_handoff_invalid
  reject (not (eqb (length h.source_history_operations) 0)) landing_source_history_mutated
  reject (not (eqb (length h.dirty_inventory) 0) || not (eqb (length h.untracked_inventory) 0))
      landing_source_dirty_uncollected
  reject (not (same (last? h.ordered_green_commit_prefix) (some h.immutable_source_tip)))
      landing_source_tip_prefix_mismatch
  members ← ordered_members h
  reject (any (λ id. bad_member (member_of h.member_mapping id)) members)
      landing_source_member_mapping_invalid
  ok members
