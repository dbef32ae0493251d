-- ===== src/Landing/Resumed.antt =====
-- A slice that is left at a checkpoint and taken up again.
use issue_orchestration.Prelude.{
  String, Bool, true, false, some, List, [], ◌∷◌, ◌==◌, ◌≡◌, refl, ap, ◌∙◌, arith, not, ◌&&◌, ◌||◌,
  same, is_hash, Option-cases, inl, inr, Result, ok, err,
}
use issue_orchestration.Landing.Slice.{ActiveSlice, Checkpoint}
use issue_orchestration.Landing.Log.{
  Attempt, Projection, LandingEvent, LogDigests, landing_slice_continuation_pending,
  require_attempt, append_attempt_event, sealed_attempt,
}
use issue_orchestration.Landing.Continuation.{
  CheckpointInput, ResumeInput, ContinuationBody, checkpoint_of, restarts, matches,
  record_landing_checkpoint, resume_landing_slice, is_false,
}
use issue_orchestration.Landing.Verified.{append_attempt_event-valid}

-- What a resumption must say of the checkpoint.
abbrev pub continues : {Value : Type 0} → CheckpointInput Value → ResumeInput → Bool
continues i j =
    (j.checkpoint_digest == i.checkpoint_digest
      && j.member_issue_id == i.member_issue_id
      && j.source_commit == i.source_commit
      && same j.conflict_cluster_id i.conflict_cluster_id)
    && not (
        not (is_false j.restart_source_inventory)
        || not (j.next_required_action == i.next_required_action)
        || restarts j.next_required_action)

abbrev pub is_ok : {C V : Type 0} → Result C V → Bool
is_ok (ok value) = true
is_ok (err code) = false

module _ {Value : Type 0} (digests : LogDigests Value)
    (continuation_digest : ContinuationBody → String) (payload : List String → Value)
    (is_hash-digest : (p : Projection Value) (es : List (LandingEvent Value))
      → is_hash (some (digests.of_attempt p es)) ≡ true)
    (a b : Attempt Value) (i : CheckpointInput Value) where
  checkpointed :
      (active : ActiveSlice)
      → a.projection.active_landing_slice ≡ some active
      → record_landing_checkpoint digests continuation_digest payload a i ≡ ok b
      → (require_attempt digests b ≡ ok tt)
        × (b.projection ≡ record a.projection {
          active_landing_slice =
              some (record active { landing_checkpoint_digest = some i.checkpoint_digest });
          landing_checkpoint = some (checkpoint_of a.projection active i);
          state = landing_slice_continuation_pending;
        })
  unfolding record_landing_checkpoint
  checkpointed active e h =
      let next : Projection Value = record a.projection {
        active_landing_slice =
            some (record active { landing_checkpoint_digest = some i.checkpoint_digest });
        landing_checkpoint = some (checkpoint_of a.projection active i);
        state = landing_slice_continuation_pending;
      } in
      let appended : append_attempt_event digests (some a) "landing-checkpoint.recorded"
            (payload (i.member_issue_id ∷ i.checkpoint_digest ∷ i.next_required_action ∷ [])) next
          ≡ ok b =
        ground (arith, h, e) in
      (
        append_attempt_event-valid digests is_hash-digest a b "landing-checkpoint.recorded"
            (payload (i.member_issue_id ∷ i.checkpoint_digest ∷ i.next_required_action ∷ [])) next
            appended refl refl,
        unfold append_attempt_event in unfold sealed_attempt in ground (arith, appended),
      )

  resumable :
      (active : ActiveSlice) (j : ResumeInput)
      → require_attempt digests b ≡ ok tt
      → b.projection.state ≡ landing_slice_continuation_pending
      → b.projection.active_landing_slice ≡ some active
      → (c : Checkpoint Value) → b.projection.landing_checkpoint ≡ some c
      → is_ok (resume_landing_slice digests continuation_digest payload b j) ≡ (
          matches c j
          && not (
              not (is_false j.restart_source_inventory)
              || not (j.next_required_action == c.next_required_action)
              || restarts j.next_required_action))
  unfolding resume_landing_slice append_attempt_event
  resumable active j valid state slice c at = ground (arith, valid, state, slice, at)

  -- Where digests are well-formed hashes, after a checkpoint that `recordLandingCheckpoint` records,
  -- `resumeLandingSlice` returns exactly for an input that names its digest, its member, its source
  -- commit, its conflict cluster and its next action, and restarts nothing.
  pub resumed_exactly :
      (j : ResumeInput)
      → record_landing_checkpoint digests continuation_digest payload a i ≡ ok b
      → is_ok (resume_landing_slice digests continuation_digest payload b j) ≡ continues i j
  resumed_exactly j h = elim (Option-cases a.projection.active_landing_slice) [
    | inl e ↦ absurd (unfold record_landing_checkpoint in ground (arith, h, e))
    | inr (active, e) ↦
        let (valid, is) = checkpointed active e h in
        resumable (record active { landing_checkpoint_digest = some i.checkpoint_digest }) j valid
          (ap (λ p. p.state) is) (ap (λ p. p.active_landing_slice) is)
          (checkpoint_of a.projection active i) (ap (λ p. p.landing_checkpoint) is)
        ∙ unfold matches in unfold checkpoint_of in refl
  ]
