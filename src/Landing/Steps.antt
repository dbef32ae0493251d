-- ===== src/Landing/Steps.antt =====
-- The calls on an attempt, and the line of commits that they all keep.
use issue_orchestration.Prelude.{
  ℕ, String, Option, some, none, map, List, ◌≡◌, refl, sym, subst, arith, ok, >>=-eq-ok,
}
use issue_orchestration.Landing.Slice.{TransplantBody, EvidenceBody}
use issue_orchestration.Landing.Log.{
  Attempt, Projection, LogDigests, append_attempt_event, sealed_attempt, human_decision_pending,
  remote_drifted, landed,
}
use issue_orchestration.Landing.Transplant.{TransplantInput, with_entry, record_commit_transplant}
use issue_orchestration.Landing.Continuation.{
  CheckpointInput, ResumeInput, ContinuationBody, record_landing_checkpoint, resume_landing_slice,
}
use issue_orchestration.Landing.Evidence.{
  RebindingInput, ReverificationInput, record_evidence_rebinding, record_reverification_receipt,
  check_rebinding, reverified,
}
use issue_orchestration.Landing.Completion.{
  DecisionInput, DriftInput, FinalInput, Drift, LandingReceiptBody,
  mark_landing_human_decision_pending, observe_landing_remote_drift, finalize_landing,
  landing_receipt_body,
}
use issue_orchestration.Landing.Branch.{IsLinear}
use issue_orchestration.Landing.Linear.{
  same-IsLinear, record_commit_transplant-IsLinear, checkpointed-IsLinear, resumed-IsLinear,
}

-- What the calls take from outside: the digests, the dates and the payloads of events.
pub record Outside (Value : Type 0) : Type 0 where
  pub digests : LogDigests Value
  pub receipt_digest : TransplantBody → String
  pub continuation_digest : ContinuationBody → String
  pub evidence_digest : EvidenceBody → String
  pub landing_digest : LandingReceiptBody Value → String
  pub date_parse : String → Option ℕ
  pub payload : List String → Value

-- The calls on an attempt that return, with the attempt that they leave.
pub data LandingStep {Value : Type 0} (o : Outside Value) (a b : Attempt Value) : Type 0 where
  transplants :
      (i : TransplantInput)
      → record_commit_transplant o.digests o.receipt_digest o.payload a i ≡ ok b
      → LandingStep o a b
  checkpoints :
      (i : CheckpointInput Value)
      → record_landing_checkpoint o.digests o.continuation_digest o.payload a i ≡ ok b
      → LandingStep o a b
  resumes :
      (i : ResumeInput)
      → resume_landing_slice o.digests o.continuation_digest o.payload a i ≡ ok b
      → LandingStep o a b
  rebinds :
      (i : RebindingInput)
      → record_evidence_rebinding o.digests o.receipt_digest o.evidence_digest o.payload a i ≡ ok b
      → LandingStep o a b
  reverifies :
      (i : ReverificationInput)
      → record_reverification_receipt o.digests o.receipt_digest o.evidence_digest o.payload a i
        ≡ ok b
      → LandingStep o a b
  suspends :
      (i : DecisionInput)
      → mark_landing_human_decision_pending o.digests o.receipt_digest o.payload a i ≡ ok b
      → LandingStep o a b
  drifts :
      (i : DriftInput) (d : Drift Value)
      → observe_landing_remote_drift o.digests o.receipt_digest o.payload o.date_parse a i ≡ ok d
      → d.attempt ≡ b
      → LandingStep o a b
  lands :
      (i : FinalInput) (receipt : LandingReceiptBody Value × String)
      → finalize_landing o.digests o.receipt_digest o.payload o.landing_digest a i ≡ ok receipt
      → receipt.0.attempt ≡ b
      → LandingStep o a b

module _ {Value : Type 0} (o : Outside Value) (a b : Attempt Value)
    (w : IsLinear a.projection) where
  appended-IsLinear :
      (event_type : String) (payload : Value) (next : Projection Value)
      → append_attempt_event o.digests (some a) event_type payload next ≡ ok b
      → IsLinear next
      → IsLinear b.projection
  unfolding append_attempt_event sealed_attempt
  appended-IsLinear event_type payload next h n =
      let e : b.projection ≡ next = ground (arith, h) in subst IsLinear (sym e) n

  rebound-IsLinear :
      (i : RebindingInput)
      → record_evidence_rebinding o.digests o.receipt_digest o.evidence_digest o.payload a i ≡ ok b
      → IsLinear b.projection
  unfolding record_evidence_rebinding
  rebound-IsLinear i h =
      let (member, tests, more) =
        >>=-eq-ok (check_rebinding o.digests o.receipt_digest o.evidence_digest o.payload a i) _
          h in
      appended-IsLinear _ _ _ more (same-IsLinear a.projection _ refl refl refl refl refl w)

  reverified-IsLinear :
      (i : ReverificationInput)
      → record_reverification_receipt o.digests o.receipt_digest o.evidence_digest o.payload a i
        ≡ ok b
      → IsLinear b.projection
  unfolding record_reverification_receipt append_attempt_event sealed_attempt reverified
  reverified-IsLinear i h =
      let next = reverified o.digests o.receipt_digest o.evidence_digest o.payload a.projection i in
      let e : b.projection ≡ next = ground (arith, h) in
      subst IsLinear (sym e) (same-IsLinear a.projection next refl refl refl refl refl w)

  suspended-IsLinear :
      (i : DecisionInput)
      → mark_landing_human_decision_pending o.digests o.receipt_digest o.payload a i ≡ ok b
      → IsLinear b.projection
  unfolding mark_landing_human_decision_pending append_attempt_event sealed_attempt
  suspended-IsLinear i h =
      let next : Projection Value = record a.projection {
        member_disposition =
            with_entry i.member_issue_id "human-decision-pending" a.projection.member_disposition;
        human_decision_request_digest = some i.request_digest;
        active_landing_slice = none;
        state = human_decision_pending;
      } in
      let e : b.projection ≡ next = ground (arith, h) in
      subst IsLinear (sym e) (same-IsLinear a.projection next refl refl refl refl refl w)

  drifted-IsLinear :
      (i : DriftInput) (d : Drift Value)
      → observe_landing_remote_drift o.digests o.receipt_digest o.payload o.date_parse a i ≡ ok d
      → d.attempt ≡ b
      → IsLinear b.projection
  unfolding observe_landing_remote_drift append_attempt_event sealed_attempt
  drifted-IsLinear i d h is =
      let next : Projection Value = record a.projection {
        active_landing_slice = none;
        landing_checkpoint = none;
        state = remote_drifted;
      } in
      let e : d.attempt.projection ≡ next = ground (arith, h) in
      subst (λ x. IsLinear x.projection) is
        (subst IsLinear (sym e) (same-IsLinear a.projection next refl refl refl refl refl w))

  landed-IsLinear :
      (i : FinalInput) (receipt : LandingReceiptBody Value × String)
      → finalize_landing o.digests o.receipt_digest o.payload o.landing_digest a i ≡ ok receipt
      → receipt.0.attempt ≡ b
      → IsLinear b.projection
  unfolding finalize_landing append_attempt_event sealed_attempt landing_receipt_body
  landed-IsLinear i receipt h is =
      let next : Projection Value = record a.projection {
        member_disposition = map (λ id. (id, "landed")) a.projection.source_member_order;
        state = landed;
      } in
      let e : receipt.0.attempt.projection ≡ next = ground (arith, h) in
      subst (λ x. IsLinear x.projection) is
        (subst IsLinear (sym e) (same-IsLinear a.projection next refl refl refl refl refl w))

-- Each call on an attempt that returns keeps the attempt linear: the transplants are those of the
-- first members in their order, no source commit is landed twice, each is mapped to the commit that
-- it became, and the new commits form one line from the remote head to the tip. The calls are those
-- that transplant a commit, leave a slice at a checkpoint, resume it, rebind and reverify evidence,
-- wait for a human decision, observe a drift of the remote and finalize the landing.
pub LandingStep-IsLinear :
    {Value : Type 0} (o : Outside Value) (a b : Attempt Value)
    → LandingStep o a b
    → IsLinear a.projection
    → IsLinear b.projection
LandingStep-IsLinear o a b (LandingStep.transplants i h) w =
    record_commit_transplant-IsLinear o.digests o.receipt_digest o.payload a b i h w
LandingStep-IsLinear o a b (LandingStep.checkpoints i h) w =
    checkpointed-IsLinear o.digests o.receipt_digest o.payload o.continuation_digest a b i h w
LandingStep-IsLinear o a b (LandingStep.resumes i h) w =
    resumed-IsLinear o.digests o.receipt_digest o.payload o.continuation_digest a b i h w
LandingStep-IsLinear o a b (LandingStep.rebinds i h) w = rebound-IsLinear o a b w i h
LandingStep-IsLinear o a b (LandingStep.reverifies i h) w = reverified-IsLinear o a b w i h
LandingStep-IsLinear o a b (LandingStep.suspends i h) w = suspended-IsLinear o a b w i h
LandingStep-IsLinear o a b (LandingStep.drifts i d h e) w = drifted-IsLinear o a b w i d h e
LandingStep-IsLinear o a b (LandingStep.lands i r h e) w = landed-IsLinear o a b w i r h e
