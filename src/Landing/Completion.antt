-- ===== src/Landing/Completion.antt =====
-- The ends of an attempt: `markLandingHumanDecisionPending`, `observeLandingRemoteDrift` and
-- `finalizeLanding`, and `createWorktreeDisposition`. `Date.parse` and the digest of a receipt are parameters.
use issue_orchestration.Prelude.{
  ℕ, String, Bool, true, false, Option, some, none, List, [], ◌∷◌, ◌==◌, not, ◌&&◌, ◌||◌, every,
  map, includes, same, is_some, is_hash, is_sha, is_printed, lookup, Result, ok, reject, ◌>>=◌,
  ◌>>◌,
}
use issue_orchestration.Landing.Lane.{is_repository}
use issue_orchestration.Landing.Slice.{ActiveSlice, TransplantBody}
use issue_orchestration.Landing.Log.{
  AttemptCode, AttemptState, Attempt, Projection, LogDigests, human_decision_pending,
  remote_drifted, landed, require_attempt, append_attempt_event,
  landing_human_decision_not_authority_choice, landing_human_decision_request_unverified,
  landing_remote_drift_observation_invalid, landing_attempt_not_ready,
  landing_fast_forward_proof_invalid, worktree_disposition_invalid,
}
use issue_orchestration.Landing.Transplant.{with_entry, require_landing_member}
use issue_orchestration.Landing.Evidence.{landed_commit, evidence_complete}

pub record DecisionInput : Type 0 where
  pub member_issue_id : String
  pub source_commit : String
  pub conflict_cluster_id : Option String
  pub reason : String
  pub request_schema : String
  pub request_verification_status : String
  pub request_member_issue_id : String
  pub request_digest : String

pub record DriftInput : Type 0 where
  pub observed_remote_head : String
  pub observed_at : String

pub record PreservedSource : Type 0 where
  pub source_epoch_id : String
  pub source_base_sha : String
  pub source_worktree_identity : String
  pub source_branch : String
  pub immutable_source_tip : String
  pub source_member_order : List String
  pub source_member_commit_shas : List (String × Option String)

pub record Drift (Value : Type 0) : Type 0 where
  pub schema : String
  pub disposition : String
  pub previous_landing_attempt_id : String
  pub observed_remote_head : String
  pub preserved_source : PreservedSource
  pub source_history_operations : List String
  pub attempt : Attempt Value

pub record FinalInput : Type 0 where
  pub remote_head_observed_before_push : String
  pub resulting_remote_sha : String
  pub push_mode : String
  pub fast_forward_verified : Bool
  pub source_retirement_disposition : String
  pub cleanup_receipt_digest : String

pub record LandingReceiptBody (Value : Type 0) : Type 0 where
  pub schema : String
  pub repository : String
  pub default_branch : String
  pub landing_attempt_id : String
  pub source_epoch_id : String
  pub source_base_sha : String
  pub immutable_source_tip : String
  pub target_epoch_id : String
  pub remote_head_observed_before_push : String
  pub resulting_remote_sha : String
  pub push_mode : String
  pub fast_forward_verified : Bool
  pub ordered_source_commits : List (Option String)
  pub ordered_landed_commits : List (Option String)
  pub old_to_new_commit_sha_map : List (String × String)
  pub member_disposition : List (String × String)
  pub source_retirement_disposition : String
  pub cleanup_receipt_digest : String
  pub source_history_operations : List String
  pub attempt : Attempt Value

-- The arguments of `createWorktreeDisposition`, where a text that is missing is the empty text.
pub record DispositionInput : Type 0 where
  pub repository : String
  pub worktree_identity : String
  pub member_issue_id : Option String
  pub evidence_class : Option String
  pub disposition : String
  pub evidence_digest : String

pub record DispositionBody : Type 0 where
  pub schema : String
  pub repository : String
  pub worktree_identity : String
  pub member_issue_id : Option String
  pub evidence_class : Option String
  pub disposition : String
  pub evidence_digest : String

-- WORKTREE_DISPOSITIONS
unfoldable pub worktree_dispositions : List String
worktree_dispositions =
    "unaffected-other-repository" ∷ "source-retained" ∷ "clean-transplant-required"
    ∷ "already-applied-equivalent" ∷ "dirty-uncollected" ∷ "conflicted-invalid"
    ∷ "human-decision-pending" ∷ "transplanted-reverify-required"
    ∷ "landing-slice-continuation-pending" ∷ "landing-ready" ∷ "landed" ∷ "source-retired" ∷ []

-- createWorktreeDisposition, which comes with its digest
unfoldable pub create_worktree_disposition :
    (DispositionBody → String) → DispositionInput → Result AttemptCode (DispositionBody × String)
create_worktree_disposition digest i = do
  reject
      (not (is_repository i.repository)
        || not (is_printed i.worktree_identity)
        || not (includes worktree_dispositions i.disposition)
        || not (is_hash (some i.evidence_digest)))
      worktree_disposition_invalid
  let body : DispositionBody = record {
    schema = "issue-orchestration.worktree-disposition.v1";
    repository = i.repository;
    worktree_identity = i.worktree_identity;
    member_issue_id = i.member_issue_id;
    evidence_class = i.evidence_class;
    disposition = i.disposition;
    evidence_digest = i.evidence_digest;
  }
  ok (body, digest body)

-- HUMAN_AUTHORITY_REASONS
unfoldable pub human_authority_reasons : List String
human_authority_reasons =
    "multiple-legal-outcomes" ∷ "authority-missing" ∷ "irreversible-authority-choice" ∷ []

-- SOURCE_RETIREMENT_DISPOSITIONS
unfoldable pub source_retirement_dispositions : List String
source_retirement_dispositions = "source-retained" ∷ "source-retired" ∷ []

-- The slice is a conflict of the member that the input names. A cluster identifier that is missing
-- is `null` here: the source tells `null` from `undefined`.
unfoldable pub is_decided : Option ActiveSlice → DecisionInput → Bool
is_decided none i = false
is_decided (some active) i =
    active.slice_kind == "resolve-one-member-one-conflict-cluster"
    && active.member_issue_id == i.member_issue_id
    && active.source_commit == i.source_commit
    && same active.conflict_cluster_id i.conflict_cluster_id

abbrev or_blank : Option String → String
or_blank none = ""
or_blank (some s) = s

abbrev flat : Option (Option String) → Option String
flat none = none
flat (some commit) = commit

-- attempt.sourceMemberCommitShas[memberIssueId]
unfoldable pub source_commit_of : {Value : Type 0} → Projection Value → String → Option String
source_commit_of p id = flat (lookup p.source_member_commit_shas id)

-- allMembersLandingReady
unfoldable pub all_members_landing_ready : {Value : Type 0} → Projection Value → Bool
all_members_landing_ready p =
    every
      (λ id.
        is_sha (landed_commit p (source_commit_of p id))
        && same (lookup p.member_disposition id) (some "landing-ready")
        && evidence_complete p.required_reverification_classes p.reverification_receipts id)
      p.source_member_order

abbrev is_stopped : AttemptState → Bool
is_stopped human_decision_pending = true
is_stopped remote_drifted = true
is_stopped _ = false

module _ {Value : Type 0} (digests : LogDigests Value) (receipt_digest : TransplantBody → String)
    (payload : List String → Value) where
  -- markLandingHumanDecisionPending
  unfoldable pub mark_landing_human_decision_pending :
      Attempt Value → DecisionInput → Result AttemptCode (Attempt Value)
  mark_landing_human_decision_pending a i = do
    require_attempt digests a
    require_landing_member digests receipt_digest payload a i.member_issue_id
    reject
        (not (is_decided a.projection.active_landing_slice i)
          || not (includes human_authority_reasons i.reason))
        landing_human_decision_not_authority_choice
    reject
        (not (i.request_schema == "issue-orchestration.human-decision-request.v1")
          || not (i.request_verification_status == "verified")
          || not (i.request_member_issue_id == i.member_issue_id)
          || not (is_hash (some i.request_digest)))
        landing_human_decision_request_unverified
    append_attempt_event digests (some a) "landing-human-decision.pending"
        (payload
          (i.member_issue_id ∷ or_blank i.conflict_cluster_id ∷ i.reason ∷ i.request_digest ∷ []))
        (record a.projection {
          member_disposition =
              with_entry i.member_issue_id "human-decision-pending" a.projection.member_disposition;
          human_decision_request_digest = some i.request_digest;
          active_landing_slice = none;
          state = human_decision_pending;
        })

  -- observeLandingRemoteDrift
  unfoldable pub observe_landing_remote_drift :
      (String → Option ℕ) → Attempt Value → DriftInput → Result AttemptCode (Drift Value)
  observe_landing_remote_drift date_parse a i = do
    require_attempt digests a
    reject
        (not (is_sha (some i.observed_remote_head))
          || i.observed_remote_head == a.projection.latest_remote_head
          || not (is_some (date_parse i.observed_at)))
        landing_remote_drift_observation_invalid
    drifted ←
        append_attempt_event digests (some a) "landing-remote.drifted"
          (payload (a.projection.latest_remote_head ∷ i.observed_remote_head ∷ i.observed_at ∷ []))
          (record a.projection {
            active_landing_slice = none;
            landing_checkpoint = none;
            state = remote_drifted;
          })
    ok (record {
      schema = "issue-orchestration.landing-drift-disposition.v1";
      disposition = "rebuild-landing-attempt";
      previous_landing_attempt_id = a.projection.attempt_id;
      observed_remote_head = i.observed_remote_head;
      preserved_source = record {
        source_epoch_id = a.projection.source_epoch_id;
        source_base_sha = a.projection.source_base_sha;
        source_worktree_identity = a.projection.source_worktree_identity;
        source_branch = a.projection.source_branch;
        immutable_source_tip = a.projection.immutable_source_tip;
        source_member_order = a.projection.source_member_order;
        source_member_commit_shas = a.projection.source_member_commit_shas;
      };
      source_history_operations = [];
      attempt = drifted;
    })

  -- The body of the receipt of `finalizeLanding`.
  unfoldable pub landing_receipt_body :
      Projection Value → FinalInput → Attempt Value → LandingReceiptBody Value
  landing_receipt_body p i done = record {
    schema = "issue-orchestration.landing-receipt.v1";
    repository = p.repository;
    default_branch = p.default_branch;
    landing_attempt_id = p.attempt_id;
    source_epoch_id = p.source_epoch_id;
    source_base_sha = p.source_base_sha;
    immutable_source_tip = p.immutable_source_tip;
    target_epoch_id = p.target_epoch_id;
    remote_head_observed_before_push = i.remote_head_observed_before_push;
    resulting_remote_sha = i.resulting_remote_sha;
    push_mode = i.push_mode;
    fast_forward_verified = true;
    ordered_source_commits = map (source_commit_of p) p.source_member_order;
    ordered_landed_commits =
        map (λ id. landed_commit p (source_commit_of p id)) p.source_member_order;
    old_to_new_commit_sha_map = p.old_to_new_commit_sha_map;
    member_disposition = done.projection.member_disposition;
    source_retirement_disposition = i.source_retirement_disposition;
    cleanup_receipt_digest = i.cleanup_receipt_digest;
    source_history_operations = [];
    attempt = done;
  }

  -- finalizeLanding, whose receipt comes with its digest
  unfoldable pub finalize_landing :
      (LandingReceiptBody Value → String)
      → Attempt Value
      → FinalInput
      → Result AttemptCode (LandingReceiptBody Value × String)
  finalize_landing landing_digest a i = do
    require_attempt digests a
    reject
        (is_some a.projection.active_landing_slice
          || is_stopped a.projection.state
          || not (all_members_landing_ready a.projection))
        landing_attempt_not_ready
    reject
        (not (i.remote_head_observed_before_push == a.projection.latest_remote_head)
          || not (i.resulting_remote_sha == a.projection.current_landing_tip)
          || not (i.push_mode == "fast-forward")
          || not i.fast_forward_verified
          || not (includes source_retirement_dispositions i.source_retirement_disposition)
          || not (is_hash (some i.cleanup_receipt_digest)))
        landing_fast_forward_proof_invalid
    done ←
        append_attempt_event digests (some a) "landing-attempt.landed"
          (payload (
            i.remote_head_observed_before_push ∷ i.resulting_remote_sha
            ∷ i.source_retirement_disposition ∷ i.cleanup_receipt_digest ∷ []))
          (record a.projection {
            member_disposition = map (λ id. (id, "landed")) a.projection.source_member_order;
            state = landed;
          })
    let body : LandingReceiptBody Value = landing_receipt_body a.projection i done
    ok (body, landing_digest body)
