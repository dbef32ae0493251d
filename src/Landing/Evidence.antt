-- ===== src/Landing/Evidence.antt =====
-- `recordEvidenceRebinding` and `recordReverificationReceipt`. A text that is missing is the empty
-- text.
use issue_orchestration.Prelude.{
  String, Bool, false, Option, some, none, List, [], ◌∷◌, ◌++◌, ◌==◌, not, ◌&&◌, ◌||◌, every,
  includes, same, is_hash, is_sha, is_printed, lookup, if◌then◌else◌, Result, ok, err, reject,
  ◌>>=◌, ◌>>◌,
}
use issue_orchestration.Landing.Handoff.{HandoffMember}
use issue_orchestration.Landing.Slice.{
  TransplantBody, EvidenceBody, EvidenceReceipt, Reverification,
}
use issue_orchestration.Landing.Log.{
  AttemptCode, Attempt, Projection, LogDigests, landing_transplanting, landing_reverifying,
  require_attempt, append_attempt_event, landing_evidence_member_not_transplanted,
  landing_evidence_rebinding_invalid, landing_evidence_source_independence_unverified,
  landing_reverification_receipt_invalid, landing_reverification_source_receipt_replayed,
  type_error,
}
use issue_orchestration.Landing.Transplant.{with_entry, require_landing_member, handed}
use issue_orchestration.Landing.Creation.{deduped}

pub record RebindingInput : Type 0 where
  pub member_issue_id : String
  pub evidence_class : String
  pub source_receipt_digest : Option String
  pub disposition : String
  pub source_independent : Bool
  pub verifier_receipt_digest : String

pub record ReverificationInput : Type 0 where
  pub member_issue_id : String
  pub evidence_class : String
  pub source_receipt_digest : Option String
  pub receipt : Reverification

-- attempt.oldToNewCommitShaMap[member.commitSha]
unfoldable pub landed_commit : {Value : Type 0} → Projection Value → Option String → Option String
landed_commit p none = none
landed_commit p (some commit) = lookup p.old_to_new_commit_sha_map commit

-- member.receiptDigests[evidenceClass]
abbrev bound_digest : Option (List (String × String)) → String → Result AttemptCode (Option String)
bound_digest none evidence_class = err type_error
bound_digest (some digests) evidence_class = ok (lookup digests evidence_class)

abbrev or_empty {ℓ} : {A : Type ℓ} → Option (List A) → List A
or_empty none = []
or_empty (some xs) = xs

abbrev is_reverified : Option Reverification → Bool
is_reverified none = false
is_reverified (some r) = r.status == "verified"

-- memberRequiredEvidenceComplete
unfoldable pub evidence_complete :
    List String → List (String × List (String × Reverification)) → String → Bool
evidence_complete classes receipts id =
    every (λ c. is_reverified (lookup (or_empty (lookup receipts id)) c)) classes

-- The member's entry with one more class.
unfoldable pub with_class {ℓ} :
    {A : Type ℓ}
    → String
    → String
    → A
    → List (String × List (String × A))
    → List (String × List (String × A))
with_class id evidence_class a entries =
    with_entry id (with_entry evidence_class a (or_empty (lookup entries id))) entries

abbrev requires : Option EvidenceReceipt → Option String → Bool
requires none digest = false
requires (some r) digest =
    r.body.disposition == "reverify-required" && same r.body.source_receipt_digest digest

unfoldable pub bad_reverification :
    {Value : Type 0} → Projection Value → Option String → ReverificationInput → Bool
bad_reverification p candidate_sha i =
    not (
      requires
        (lookup (or_empty (lookup p.evidence_disposition i.member_issue_id)) i.evidence_class)
        i.source_receipt_digest)
    || not (i.receipt.schema == "issue-orchestration.member-reverification-receipt.v1")
    || not (i.receipt.repository == p.repository)
    || not (i.receipt.member_issue_id == i.member_issue_id)
    || not (i.receipt.base_sha == p.latest_remote_head)
    || not (same i.receipt.candidate_sha candidate_sha)
    || not (i.receipt.status == "verified")
    || not (is_hash (some i.receipt.receipt_digest))

module _ {Value : Type 0} (digests : LogDigests Value) (receipt_digest : TransplantBody → String)
    (evidence_digest : EvidenceBody → String) (payload : List String → Value) where
  -- The tests of `recordEvidenceRebinding`, which give the member.
  unfoldable pub check_rebinding : Attempt Value → RebindingInput → Result AttemptCode HandoffMember
  check_rebinding a i = do
    require_attempt digests a
    found ← require_landing_member digests receipt_digest payload a i.member_issue_id
    member ← handed found
    reject (not (is_sha (landed_commit a.projection member.commit_sha)))
        landing_evidence_member_not_transplanted
    reject (not (is_printed i.evidence_class)) landing_evidence_rebinding_invalid
    source ← bound_digest member.receipt_digests i.evidence_class
    reject
        (not (same source i.source_receipt_digest)
          || not (includes ("reverify-required" ∷ "source-independent-rebound" ∷ []) i.disposition)
          || not (is_hash (some i.verifier_receipt_digest)))
        landing_evidence_rebinding_invalid
    reject (i.disposition == "source-independent-rebound" && not i.source_independent)
        landing_evidence_source_independence_unverified
    ok member

  -- The receipt of a rebinding.
  unfoldable pub rebound : Projection Value → RebindingInput → HandoffMember → EvidenceReceipt
  rebound p i member =
      let body : EvidenceBody = record {
        schema = "issue-orchestration.evidence-rebinding-receipt.v1";
        repository = p.repository;
        landing_attempt_id = p.attempt_id;
        member_issue_id = i.member_issue_id;
        evidence_class = i.evidence_class;
        source_receipt_digest = i.source_receipt_digest;
        disposition = i.disposition;
        source_independent = i.source_independent;
        source_base_sha = p.source_base_sha;
        target_base_sha = p.latest_remote_head;
        new_candidate_sha = landed_commit p member.commit_sha;
        verifier_receipt_digest = i.verifier_receipt_digest;
      } in
      record { body = body; receipt_digest = evidence_digest body }

  -- recordEvidenceRebinding
  unfoldable pub record_evidence_rebinding :
      Attempt Value → RebindingInput → Result AttemptCode (Attempt Value)
  record_evidence_rebinding a i = do
    member ← check_rebinding a i
    let receipt : EvidenceReceipt = rebound a.projection i member
    append_attempt_event digests (some a) "landing-evidence.rebound"
        (payload
          (i.member_issue_id ∷ i.evidence_class ∷ i.disposition ∷ receipt.receipt_digest ∷ []))
        (record a.projection {
          evidence_disposition =
              with_class i.member_issue_id i.evidence_class receipt
                a.projection.evidence_disposition;
          reverification_plan =
              with_entry i.member_issue_id
                (deduped [] (
                  or_empty (lookup a.projection.reverification_plan i.member_issue_id)
                  ++ (if i.disposition == "reverify-required" then i.evidence_class ∷ [] else [])))
                a.projection.reverification_plan;
        })

  -- The projection after a reverification.
  unfoldable pub reverified : Projection Value → ReverificationInput → Projection Value
  reverified p i =
      let receipts =
        with_class i.member_issue_id i.evidence_class i.receipt p.reverification_receipts in
      let ready = evidence_complete p.required_reverification_classes receipts i.member_issue_id in
      record p {
        reverification_receipts = receipts;
        member_disposition =
            with_entry i.member_issue_id
              (if ready then "landing-ready" else "transplanted-reverify-required")
              p.member_disposition;
        state = if ready then landing_transplanting else landing_reverifying;
      }

  -- recordReverificationReceipt
  unfoldable pub record_reverification_receipt :
      Attempt Value → ReverificationInput → Result AttemptCode (Attempt Value)
  record_reverification_receipt a i = do
    require_attempt digests a
    found ← require_landing_member digests receipt_digest payload a i.member_issue_id
    member ← handed found
    reject (bad_reverification a.projection (landed_commit a.projection member.commit_sha) i)
        landing_reverification_receipt_invalid
    reject (same (some i.receipt.receipt_digest) i.source_receipt_digest)
        landing_reverification_source_receipt_replayed
    append_attempt_event digests (some a) "landing-evidence.reverified"
        (payload (i.member_issue_id ∷ i.evidence_class ∷ i.receipt.receipt_digest ∷ []))
        (reverified a.projection i)
