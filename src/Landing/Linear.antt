-- ===== src/Landing/Linear.antt =====
-- The landing branch that the transplants of an attempt build.
use issue_orchestration.Prelude.{
  String, true, false, some, List, [], ◌∷◌, ◌++◌, ◌==◌, ◌≡◌, sym, ap, subst, ◌∙◌, arith, ◌||◌,
  is_distinct, length, take, is_some, lookup, Option-cases, inl, inr, if◌then◌else◌, ok, >>=-eq-ok,
}
use issue_orchestration.Landing.Slice.{ActiveSlice, TransplantBody, TransplantReceipt}
use issue_orchestration.Landing.Log.{
  Attempt, Projection, LogDigests, append_attempt_event, sealed_attempt,
}
use issue_orchestration.Landing.Transplant.{
  TransplantInput, already_applied, index_of, with_entry, bad_evidence, receipt_body,
  sealed_receipt, transplanted, check_transplant, record_commit_transplant,
}
use issue_orchestration.Landing.Continuation.{
  CheckpointInput, ResumeInput, ContinuationBody, record_landing_checkpoint, resume_landing_slice,
}
use issue_orchestration.Landing.Branch.{
  sources_of, is_mapped, IsLinear, tip-append, line-append, members-append, sources-append,
  length-end, take-index, distinct-end, fresh-source, still-mapped, new-mapped, every-end,
}

module _ {Value : Type 0} (p : Projection Value) (active : ActiveSlice) (i : TransplantInput)
    (receipt_digest : TransplantBody → String) (w : IsLinear p)
    (fresh : is_some (lookup p.old_to_new_commit_sha_map i.source_commit) ≡ false)
    (at : index_of p.source_member_order i.member_issue_id ≡ some (length p.transplant_operations))
    (on_tip : (already_applied i || i.parent_sha == p.current_landing_tip) ≡ true) where
  grown : IsLinear (transplanted (sealed_receipt receipt_digest p active i) i p)
  unfolding transplanted sealed_receipt receipt_body
  grown =
      let receipt : TransplantReceipt = sealed_receipt receipt_digest p active i in
      record {
        order =
            members-append p.transplant_operations receipt
            ∙ (ap (λ xs. xs ++ i.member_issue_id ∷ []) w.order
                ∙ (sym (
                      take-index p.source_member_order i.member_issue_id
                        (length p.transplant_operations) at)
                    ∙ ap (λ n. take n p.source_member_order)
                        (sym (length-end p.transplant_operations receipt))));
        sources =
            subst (λ xs. is_distinct xs ≡ true)
              (sym (sources-append p.transplant_operations receipt))
              (distinct-end (sources_of p.transplant_operations) i.source_commit w.sources (
                fresh-source p.old_to_new_commit_sha_map p.transplant_operations i.source_commit
                  w.commits fresh));
        commits =
            every-end
              (is_mapped (with_entry i.source_commit i.new_commit_sha p.old_to_new_commit_sha_map))
              p.transplant_operations receipt
              (still-mapped p.old_to_new_commit_sha_map i.source_commit i.new_commit_sha
                p.transplant_operations fresh w.commits)
              (new-mapped p.old_to_new_commit_sha_map i.source_commit i.new_commit_sha fresh);
        line =
            line-append p.latest_remote_head p.transplant_operations receipt w.line
              (subst (λ t. (already_applied i || i.parent_sha == t) ≡ true) w.tip on_tip);
        tip =
            ap (λ t. if already_applied i then t else i.new_commit_sha) w.tip
            ∙ sym (tip-append p.latest_remote_head p.transplant_operations receipt);
      }

-- A projection that holds the same transplants on the same head.
pub same-IsLinear :
    {Value : Type 0} (p q : Projection Value)
    → q.transplant_operations ≡ p.transplant_operations
    → q.source_member_order ≡ p.source_member_order
    → q.old_to_new_commit_sha_map ≡ p.old_to_new_commit_sha_map
    → q.latest_remote_head ≡ p.latest_remote_head
    → q.current_landing_tip ≡ p.current_landing_tip
    → IsLinear p
    → IsLinear q
same-IsLinear p q ops order commits head tip w = record {
  order = simp (ops, order, w.order);
  sources = simp (ops, w.sources);
  commits = simp (ops, commits, w.commits);
  line = simp (ops, head, w.line);
  tip = simp (ops, head, tip, w.tip);
}

module _ {Value : Type 0} (digests : LogDigests Value) (receipt_digest : TransplantBody → String)
    (payload : List String → Value) where
  checked :
      (a : Attempt Value) (i : TransplantInput) (active : ActiveSlice)
      → check_transplant digests receipt_digest payload a i ≡ ok active
      → (is_some (lookup a.projection.old_to_new_commit_sha_map i.source_commit) ≡ false)
        × ((index_of a.projection.source_member_order i.member_issue_id
              ≡ some (length a.projection.transplant_operations))
            × ((already_applied i || i.parent_sha == a.projection.current_landing_tip) ≡ true))
  unfolding check_transplant bad_evidence
  checked a i active h = (
    ground (arith, h),
    (
      elim (Option-cases (index_of a.projection.source_member_order i.member_issue_id)) [
        | inl e ↦ absurd (ground (arith, h, e))
        | inr (n, e) ↦
            let is : length a.projection.transplant_operations ≡ n = ground (arith, h, e) in
            ground (arith, e, is)
      ],
      ground (arith, h),
    ),
  )

  pub record_commit_transplant-IsLinear :
      (a b : Attempt Value) (i : TransplantInput)
      → record_commit_transplant digests receipt_digest payload a i ≡ ok b
      → IsLinear a.projection
      → IsLinear b.projection
  unfolding record_commit_transplant append_attempt_event sealed_attempt
  record_commit_transplant-IsLinear a b i h w =
      let (active, tests, more) =
        >>=-eq-ok (check_transplant digests receipt_digest payload a i) _ h in
      let facts = checked a i active tests in
      let e : b.projection
          ≡ transplanted (sealed_receipt receipt_digest a.projection active i) i a.projection =
        ground (arith, more) in
      subst IsLinear (sym e)
        (grown a.projection active i receipt_digest w facts.0 facts.1.0 facts.1.1)

  pub checkpointed-IsLinear :
      (continuation_digest : ContinuationBody → String) (a b : Attempt Value)
      (i : CheckpointInput Value)
      → record_landing_checkpoint digests continuation_digest payload a i ≡ ok b
      → IsLinear a.projection
      → IsLinear b.projection
  unfolding record_landing_checkpoint append_attempt_event sealed_attempt
  checkpointed-IsLinear continuation_digest a b i h w =
      elim (Option-cases a.projection.active_landing_slice) [
        | inl e ↦ absurd (ground (arith, h, e))
        | inr (active, e) ↦
            same-IsLinear a.projection b.projection (ground (arith, h, e)) (ground (arith, h, e))
              (ground (arith, h, e)) (ground (arith, h, e)) (ground (arith, h, e)) w
      ]

  pub resumed-IsLinear :
      (continuation_digest : ContinuationBody → String) (a b : Attempt Value) (i : ResumeInput)
      → resume_landing_slice digests continuation_digest payload a i ≡ ok b
      → IsLinear a.projection
      → IsLinear b.projection
  unfolding resume_landing_slice append_attempt_event sealed_attempt
  resumed-IsLinear continuation_digest a b i h w =
      same-IsLinear a.projection b.projection (ground (arith, h)) (ground (arith, h))
        (ground (arith, h)) (ground (arith, h)) (ground (arith, h)) w
