-- ===== src/Group/Kept.antt =====
-- What each operation keeps of a sound session.
use issue_orchestration.Prelude.{
  String, true, some, none, List, ◌==◌, ◌≡◌, refl, sym, subst, arith, not, same, same-eq, is_hash,
  is_sha, put, every-lookup, ok, >>=-eq-ok, eq_refl, Bool-cases, inl, inr, reject,
}
use issue_orchestration.Group.Session.{
  Session, GroupMember, MemberCommit, FrozenSource, MemberReceipt, require_member, require_session,
  acceptance_group_source_tip_immutable, previous_member, place_in, is_green, receipts_are_green,
  green_committed, member_human_decision_pending,
}
use issue_orchestration.Group.Operations.{
  ReceiptInput, HumanInput, ReceiptClass, behavior_class, documentation_class, another_class,
  with_receipt, candidate_sha_of, bind_member_receipt, mark_member_human_decision_pending,
}
use issue_orchestration.Group.Commits.{
  CommitInput, record_member_commit, freeze_group_source, members_in, commits_of,
}
use issue_orchestration.Group.Fits.{
  require_member-lookup, active-put, lease-put, active-put_other, lease-put_other, Keeps,
  stored-Keeps,
}
use issue_orchestration.Group.Sound.{Step, IsSound, fits, is_working, is_holder, header_fits}
use issue_orchestration.Group.Leased.{activated-Keeps, leased-Keeps, recorded-Keeps, released-Keeps}

with_receipt-fits :
    (c : ReceiptClass) (r : MemberReceipt) (m : GroupMember)
    → fits m ≡ true
    → (r.status == "verified") ≡ true
    → is_hash (some r.receipt_digest) ≡ true
    → fits (with_receipt c r m) ≡ true
unfolding with_receipt fits receipts_are_green
with_receipt-fits behavior_class r m f v d = ground arith
with_receipt-fits documentation_class r m f v d = ground arith
with_receipt-fits another_class r m f v d = f

with_receipt-status :
    (c : ReceiptClass) (r : MemberReceipt) (m : GroupMember)
    → is_working m.status ≡ true
    → is_working (with_receipt c r m).status ≡ true
unfolding with_receipt
with_receipt-status behavior_class r m f = f
with_receipt-status documentation_class r m f = f
with_receipt-status another_class r m f = f

with_receipt-green :
    (c : ReceiptClass) (r : MemberReceipt) (m : GroupMember)
    → is_green m.status ≡ true
    → is_green (with_receipt c r m).status ≡ true
unfolding with_receipt
with_receipt-green behavior_class r m f = f
with_receipt-green documentation_class r m f = f
with_receipt-green another_class r m f = f

with_receipt-holder :
    (l : String) (c : ReceiptClass) (r : MemberReceipt) (m : GroupMember)
    → is_holder l m ≡ true
    → is_holder l (with_receipt c r m) ≡ true
unfolding with_receipt
with_receipt-holder l behavior_class r m f = f
with_receipt-holder l documentation_class r m f = f
with_receipt-holder l another_class r m f = f

commit-fits :
    (m : GroupMember) (c : MemberCommit)
    → fits m ≡ true
    → receipts_are_green m ≡ true
    → is_sha (some c.commit_sha) ≡ true
    → same c.candidate_sha (candidate_sha_of m.candidate_identity) ≡ true
    → fits (record m { commit_sha = some c.commit_sha; commit = some c; status = green_committed })
      ≡ true
unfolding fits receipts_are_green same
commit-fits m c f g sha candidate = ground (arith, eq_refl c.commit_sha)

module _ (s t : Session) where
  bound-Keeps : (i : ReceiptInput) → bind_member_receipt s i ≡ ok t → IsSound s → Keeps s t
  unfolding bind_member_receipt fits
  bound-Keeps i h w =
      let (m, got, rest) = >>=-eq-ok (require_member s i.member_issue_id) _ h in
      let old = require_member-lookup s i.member_issue_id m got in
      let m_fits = every-lookup fits i.member_issue_id m s.members w.members old in
      let new : GroupMember = with_receipt i.receipt_class i.receipt m in
      let e : t ≡ record s { members = put i.member_issue_id new s.members } =
        ground (arith, rest) in
      subst (Keeps s) (sym e) (
        stored-Keeps s i.member_issue_id m new s.active_member_issue s.active_write_lease_id w old
          (λ g. with_receipt-green i.receipt_class i.receipt m g)
          (with_receipt-fits i.receipt_class i.receipt m m_fits (ground (arith, rest))
            (ground (arith, rest)))
          (active-put _ none _ _ m old new (λ g. with_receipt-status i.receipt_class i.receipt m g)
            w.active)
          (lease-put _ _ _ _ m old new (λ l g. with_receipt-holder l i.receipt_class i.receipt m g)
            w.lease))

  committed-Keeps : (i : CommitInput) → record_member_commit s i ≡ ok t → IsSound s → Keeps s t
  unfolding record_member_commit fits
  committed-Keeps i h w =
      let (m, got, rest) = >>=-eq-ok (require_member s i.member_issue_id) _ h in
      let old = require_member-lookup s i.member_issue_id m got in
      let m_fits = every-lookup fits i.member_issue_id m s.members w.members old in
      let (before, at, more) =
        >>=-eq-ok (previous_member s (place_in s.member_order i.member_issue_id)) _ rest in
      let new : GroupMember = record m {
        commit_sha = some i.commit.commit_sha;
        commit = some i.commit;
        status = green_committed;
      } in
      let e : t ≡ record s {
        active_member_issue = none;
        active_write_lease_id = none;
        members = put i.member_issue_id new s.members;
      } =
        ground (arith, more) in
      subst (Keeps s) (sym e) (
        stored-Keeps s i.member_issue_id m new none none w old (λ g. refl)
          (commit-fits m i.commit m_fits (ground (arith, more)) (ground (arith, more))
            (ground (arith, more)))
          refl refl)

  frozen-Keeps : (i : FrozenSource) → freeze_group_source s i ≡ ok t → IsSound s → Keeps s t
  unfolding freeze_group_source
  frozen-Keeps i h w =
      let (u, got, rest) = >>=-eq-ok (require_session s) _ h in
      let (v, free, more) =
        >>=-eq-ok
          (reject (not (same s.immutable_source_tip none)) acceptance_group_source_tip_immutable) _
          rest in
      let (ms, at, last) = >>=-eq-ok (members_in s.members s.member_order) _ more in
      let e : t ≡ record s {
        immutable_source_tip = some i.immutable_source_tip;
        ordered_green_commit_prefix = commits_of ms;
        frozen_source = some i;
      } =
        ground (arith, last) in
      let thawed : s.immutable_source_tip ≡ none =
        same-eq s.immutable_source_tip none (ground (arith, free)) in
      subst (Keeps s) (sym e) (record {
        sound = record {
          header = unfold header_fits in unfold header_fits in w.header;
          members = w.members;
          active = w.active;
          lease = w.lease;
        };
        green = λ id g. g;
        source = λ f. absurd (ground (arith, thawed, f));
      })

  suspended-Keeps :
      (i : HumanInput) → mark_member_human_decision_pending s i ≡ ok t → IsSound s → Keeps s t
  unfolding mark_member_human_decision_pending fits
  suspended-Keeps i h w =
      let (m, got, rest) = >>=-eq-ok (require_member s i.member_issue_id) _ h in
      let old = require_member-lookup s i.member_issue_id m got in
      let m_fits = every-lookup fits i.member_issue_id m s.members w.members old in
      let waiting : GroupMember = record m {
        status = member_human_decision_pending;
        human_decision = some (i.request, i.retained_resource_receipt_digest);
      } in
      elim (Bool-cases (same s.active_member_issue (some i.member_issue_id))) [
        | inl e ↦
            let new : GroupMember = record waiting { write_lease = none } in
            let changed : t ≡ record s {
              active_member_issue = none;
              active_write_lease_id = none;
              members = put i.member_issue_id new s.members;
            } =
              ground (arith, rest, e) in
            subst (Keeps s) (sym changed) (
              stored-Keeps s i.member_issue_id m new none none w old
                (λ g. absurd (ground (arith, g, rest))) (ground (arith, m_fits, rest)) refl refl)
        | inr e ↦
            let changed : t ≡ record s { members = put i.member_issue_id waiting s.members } =
              ground (arith, rest, e) in
            subst (Keeps s) (sym changed) (
              stored-Keeps s i.member_issue_id m waiting s.active_member_issue
                s.active_write_lease_id w old (λ g. absurd (ground (arith, g, rest)))
                (ground (arith, m_fits, rest)) (active-put_other _ _ _ _ e w.active)
                (lease-put_other _ _ _ _ _ e w.lease))
      ]

-- Every call that returns keeps a sound session so.
pub Step-Keeps :
    {digest : List (String × String) → String} {s t : Session}
    → Step digest s t
    → IsSound s
    → Keeps s t
Step-Keeps (Step.activated i h) w = activated-Keeps _ _ _ i h w
Step-Keeps (Step.leased i h) w = leased-Keeps _ _ i h w
Step-Keeps (Step.recorded i h) w = recorded-Keeps _ _ i h w
Step-Keeps (Step.released i h) w = released-Keeps _ _ i h w
Step-Keeps (Step.bound i h) w = bound-Keeps _ _ i h w
Step-Keeps (Step.committed i h) w = committed-Keeps _ _ i h w
Step-Keeps (Step.suspended i h) w = suspended-Keeps _ _ i h w
Step-Keeps (Step.frozen i h) w = frozen-Keeps _ _ i h w
