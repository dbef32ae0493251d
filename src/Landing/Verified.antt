-- ===== src/Landing/Verified.antt =====
-- An attempt that an operation leaves is one that the next operation accepts.
use issue_orchestration.Prelude.{
  ℕ, ◌+◌, String, true, false, Option, some, none, List, [], ◌∷◌, ◌++◌, ◌==◌, ◌≡◌, refl, sym, ap,
  ◌∙◌, arith, length, last?, last?-append, same, is_hash, ok, eq_refl, reject-eq-ok, >>=-eq-ok,
}
use issue_orchestration.Landing.Lane.{Lane, LaneBody}
use issue_orchestration.Landing.Handoff.{Handoff}
use issue_orchestration.Landing.Log.{
  LogDigests, Attempt, Projection, LandingEvent, bad_event, verify_events, verify_event_log,
  require_attempt, next_event, sealed_attempt, append_attempt_event, event_digest_of,
  landing_attempt_event_log_invalid,
}
use issue_orchestration.Landing.Creation.{AttemptInput, create_landing_attempt, initial_projection}

-- The digest of the last event, or the one given where there is none.
abbrev last_or : {V : Type 0} → Option String → List (LandingEvent V) → Option String
last_or previous [] = previous
last_or previous (e ∷ es) = last_or (some e.event_digest) es

last_or-last :
    {V : Type 0} (e : LandingEvent V) (es : List (LandingEvent V))
    → last_or (some e.event_digest) es ≡ event_digest_of (last? (e ∷ es))
unfolding last?
last_or-last e [] = refl
last_or-last e (f ∷ es) = last_or-last f es

last_or-eq :
    {V : Type 0} (es : List (LandingEvent V)) → last_or none es ≡ event_digest_of (last? es)
unfolding last?
last_or-eq [] = refl
last_or-eq (e ∷ es) = last_or-last e es

module _ {Value : Type 0} (digests : LogDigests Value) where
  same_refl : (o : Option String) → same o o ≡ true
  unfolding same
  same_refl none = refl
  same_refl (some s) = eq_refl s

  -- The loop goes on through one more event.
  verify-snoc :
      (a : Attempt Value) (n m : ℕ) (previous : Option String) (es : List (LandingEvent Value))
      (e : LandingEvent Value)
      → verify_events digests a n previous es ≡ ok tt
      → m ≡ n + length es
      → bad_event digests a m (last_or previous es) e ≡ false
      → verify_events digests a n previous (es ++ e ∷ []) ≡ ok tt
  unfolding verify_events
  verify-snoc a n m previous [] e v s b =
      let k : m ≡ n = omega arith in
      let c : bad_event digests a n previous e ≡ false =
        ap (λ x. bad_event digests a x previous e) (sym k) ∙ b in
      rw c refl
  verify-snoc a n m previous (f ∷ es) e v s b =
      let (fine, rest) =
        reject-eq-ok (bad_event digests a n previous f) landing_attempt_event_log_invalid _ v in
      rw fine (verify-snoc a (n + 1) m (some f.event_digest) es e rest (omega arith) b)

  -- What the log checks of an event does not depend on the rest of the attempt.
  bad_event-attempt :
      (a b : Attempt Value) (n : ℕ) (previous : Option String) (e : LandingEvent Value)
      → a.projection.attempt_id ≡ b.projection.attempt_id
      → bad_event digests a n previous e ≡ bad_event digests b n previous e
  unfolding bad_event
  bad_event-attempt a b n previous e same_id = simp same_id

  verify-attempt :
      (a b : Attempt Value) (n : ℕ) (previous : Option String) (es : List (LandingEvent Value))
      → a.projection.attempt_id ≡ b.projection.attempt_id
      → verify_events digests a n previous es ≡ verify_events digests b n previous es
  unfolding verify_events
  verify-attempt a b n previous [] same_id = refl
  verify-attempt a b n previous (e ∷ es) same_id = simp (
    bad_event-attempt a b n previous e same_id,
    verify-attempt a b (n + 1) (some e.event_digest) es same_id,
  )

  next-good :
      (a : Attempt Value) (events : List (LandingEvent Value)) (event_type : String)
      (payload : Value) (next : Projection Value)
      → a.projection ≡ next
      → bad_event digests a
          (length events + 1)
          (event_digest_of (last? events))
          (next_event digests events event_type payload next)
        ≡ false
  unfolding bad_event next_event
  next-good a events event_type payload next p = ground (
    arith,
    ap (λ q. q.attempt_id) p,
    eq_refl next.attempt_id,
    eq_refl (digests.of_payload payload),
    same_refl (event_digest_of (last? events)),
    eq_refl (digests.of_event (next_event digests events event_type payload next).body),
  )

  required :
      (a : Attempt Value)
      → require_attempt digests a ≡ ok tt
      → ((a.projection.schema == "issue-orchestration.landing-attempt.v1") ≡ true)
        × (verify_events digests a 1 none a.event_log ≡ ok tt)
  unfolding require_attempt verify_event_log
  required a h = (ground arith, ground arith)

  ended :
      (event_type : String) (payload : Value) (next : Projection Value)
      (events : List (LandingEvent Value))
      → ((next_event digests events event_type payload next).body.resulting_projection_digest
          == digests.of_projection next)
        ≡ true
  unfolding next_event
  ended event_type payload next events = eq_refl (digests.of_projection next)

  created-eq :
      (lane_digest : LaneBody → String) (created : List String → Value) (lane : Lane) (h : Handoff)
      (input : AttemptInput) (a : Attempt Value)
      → create_landing_attempt digests lane_digest created lane h input ≡ ok a
      → a
        ≡ sealed_attempt digests
            (next_event digests [] "landing-attempt.created"
                (created (
                  h.source_epoch ∷ h.source_base ∷ input.latest_remote_head ∷ input.target_epoch_id
                  ∷ []))
                (initial_projection digests lane h a.projection.source_member_order input)
              ∷ [])
            (initial_projection digests lane h a.projection.source_member_order input)
  unfolding create_landing_attempt append_attempt_event sealed_attempt initial_projection
  created-eq lane_digest created lane h input a c = ground arith

  -- A log with one more event, made for the projection that the attempt has.
  module _
      (is_hash-digest : (p : Projection Value) (es : List (LandingEvent Value))
        → is_hash (some (digests.of_attempt p es)) ≡ true) where
    sealed-valid :
        (a : Attempt Value) (event_type : String) (payload : Value) (next : Projection Value)
        → (next.schema == "issue-orchestration.landing-attempt.v1") ≡ true
        → a.projection.attempt_id ≡ next.attempt_id
        → verify_events digests a 1 none a.event_log ≡ ok tt
        → require_attempt digests (
            sealed_attempt digests
              (a.event_log ++ next_event digests a.event_log event_type payload next ∷ [])
              next)
          ≡ ok tt
    unfolding require_attempt verify_event_log sealed_attempt
    sealed-valid a event_type payload next schema same_id v =
        let e = next_event digests a.event_log event_type payload next in
        let b : Attempt Value = sealed_attempt digests (a.event_log ++ e ∷ []) next in
        let old = sym (verify-attempt a b 1 none a.event_log same_id) ∙ v in
        let good : bad_event digests b (length a.event_log + 1) (last_or none a.event_log) e
            ≡ false =
          ap (λ p. bad_event digests b (length a.event_log + 1) p e) (last_or-eq a.event_log)
          ∙ next-good b a.event_log event_type payload next refl in
        let all =
          verify-snoc b 1 (length a.event_log + 1) none a.event_log e old (omega arith) good in
        simp (
          schema,
          is_hash-digest next (a.event_log ++ e ∷ []),
          eq_refl (digests.of_attempt next (a.event_log ++ e ∷ [])),
          all,
          last?-append a.event_log e,
          ended event_type payload next a.event_log,
        )

    -- Where digests are well-formed hashes, an operation on an attempt that is accepted leaves an attempt that is accepted: its event
    -- chains to the log, and the log ends in the digest of the new projection. The change keeps
    -- the schema and the attempt's id.
    pub append_attempt_event-valid :
        (a b : Attempt Value) (event_type : String) (payload : Value) (next : Projection Value)
        → append_attempt_event digests (some a) event_type payload next ≡ ok b
        → next.schema ≡ a.projection.schema
        → next.attempt_id ≡ a.projection.attempt_id
        → require_attempt digests b ≡ ok tt
    unfolding append_attempt_event
    append_attempt_event-valid a b event_type payload next h schema same_id =
        let (u, valid, made) = >>=-eq-ok (require_attempt digests a) _ h in
        let (known, logged) = required a (valid ∙ refl) in
        let e : b
            ≡ sealed_attempt digests
                (a.event_log ++ next_event digests a.event_log event_type payload next ∷ []) next =
          ground arith in
        rw e (
          sealed-valid a event_type payload next
            (ap (λ s. s == "issue-orchestration.landing-attempt.v1") schema ∙ known) (sym same_id)
            logged)

    -- Where digests are well-formed hashes, an attempt that `createLandingAttempt` makes is accepted:
    -- its log of one event verifies, and ends in the digest of its projection.
    pub create_landing_attempt-valid :
        (lane_digest : LaneBody → String) (created : List String → Value) (lane : Lane)
        (h : Handoff) (input : AttemptInput) (a : Attempt Value)
        → create_landing_attempt digests lane_digest created lane h input ≡ ok a
        → require_attempt digests a ≡ ok tt
    create_landing_attempt-valid lane_digest created lane h input a c =
        let p = initial_projection digests lane h a.projection.source_member_order input in
        let payload = created (
          h.source_epoch ∷ h.source_base ∷ input.latest_remote_head ∷ input.target_epoch_id ∷ []) in
        let empty : Attempt Value = record {
          projection = p;
          event_log = [];
          attempt_digest = "";
        } in
        let started : p.schema ≡ "issue-orchestration.landing-attempt.v1" =
          unfold initial_projection in refl in
        let none_yet : verify_events digests empty 1 none [] ≡ ok tt =
          unfold verify_events in refl in
        ap (require_attempt digests) (created-eq lane_digest created lane h input a c)
        ∙ sealed-valid empty "landing-attempt.created" payload p (rw started refl) refl none_yet
