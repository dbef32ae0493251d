-- ===== src/Group/Leased.antt =====
-- What the calls of the active member keep of a sound session.
use issue_orchestration.Prelude.{
  String, true, some, none, List, ◌==◌, ◌≡◌, refl, sym, subst, arith, ◌&&◌, same-eq, is_some,
  lookup, put, has, every-lookup, lookup-put_same, ok, >>=-eq-ok, if◌then◌else◌,
}
use issue_orchestration.Group.Session.{
  Session, GroupMember, require_member, is_verified, member_active, member_writing,
  member_candidate_verified, member_awaiting_receipts, member_red,
}
use issue_orchestration.Group.Operations.{
  FrozenIdentity, LeaseInput, CandidateInput, ReleaseInput, activate_group_member,
  acquire_member_write_lease, record_member_candidate, release_member_write_lease,
}
use issue_orchestration.Group.Fits.{
  require_member-lookup, none_leased, is_active, is_leased, active-put, lease-put, Keeps,
  stored-Keeps,
}
use issue_orchestration.Group.Sound.{IsSound, fits, is_working, active_fits}

at_work :
    (s : Session) (id : String) (m : GroupMember)
    → IsSound s
    → lookup s.members id ≡ some m
    → s.active_member_issue ≡ some id
    → is_working m.status ≡ true
at_work s id m w old active =
    subst (λ o. has (λ x. is_working x.status) o ≡ true) old
      (subst (λ a. active_fits a s.members ≡ true) active w.active)

module _ (s t : Session) where
  pub activated-Keeps :
      (digest : List (String × String) → String) (i : FrozenIdentity)
      → activate_group_member digest s i ≡ ok t
      → IsSound s
      → Keeps s t
  unfolding activate_group_member fits
  activated-Keeps digest i h w =
      let (m, got, rest) = >>=-eq-ok (require_member s i.member_issue_id) _ h in
      let old = require_member-lookup s i.member_issue_id m got in
      let m_fits = every-lookup fits i.member_issue_id m s.members w.members old in
      let new : GroupMember = record m { status = member_active } in
      let e : t ≡ record s {
        active_member_issue = some i.member_issue_id;
        members = put i.member_issue_id new s.members;
      } =
        ground (arith, rest) in
      let free : s.active_write_lease_id ≡ none = ground (arith, rest) in
      let now = lookup-put_same i.member_issue_id new m s.members old in
      subst (Keeps s) (sym e) (
        stored-Keeps s i.member_issue_id m new (some i.member_issue_id) s.active_write_lease_id w
          old (λ g. absurd (ground (arith, g, rest))) (ground (arith, m_fits, rest))
          (is_active _ none _ _ new now refl refl) (none_leased _ _ _ free))

  pub leased-Keeps :
      (i : LeaseInput) → acquire_member_write_lease s i ≡ ok t → IsSound s → Keeps s t
  unfolding acquire_member_write_lease fits
  leased-Keeps i h w =
      let (m, got, rest) = >>=-eq-ok (require_member s i.member_issue_id) _ h in
      let old = require_member-lookup s i.member_issue_id m got in
      let m_fits = every-lookup fits i.member_issue_id m s.members w.members old in
      let new : GroupMember = record m { write_lease = some i.lease; status = member_writing } in
      let e : t ≡ record s {
        active_write_lease_id = some i.lease.lease_id;
        members = put i.member_issue_id new s.members;
      } =
        ground (arith, rest) in
      let active : s.active_member_issue ≡ some i.member_issue_id =
        same-eq s.active_member_issue (some i.member_issue_id) (ground (arith, rest)) in
      let now = lookup-put_same i.member_issue_id new m s.members old in
      subst (Keeps s) (sym e) (
        stored-Keeps s i.member_issue_id m new s.active_member_issue (some i.lease.lease_id) w old
          (λ g. absurd (ground (arith, g, rest))) (ground (arith, m_fits, rest))
          (is_active _ none _ _ new now active refl)
          (is_leased _ _ _ _ new now i.lease active refl refl refl))

  pub recorded-Keeps :
      (i : CandidateInput) → record_member_candidate s i ≡ ok t → IsSound s → Keeps s t
  unfolding record_member_candidate fits
  recorded-Keeps i h w =
      let (m, got, rest) = >>=-eq-ok (require_member s i.member_issue_id) _ h in
      let old = require_member-lookup s i.member_issue_id m got in
      let m_fits = every-lookup fits i.member_issue_id m s.members w.members old in
      let new : GroupMember = record m {
        candidate_identity = some i.candidate_identity;
        receipts = record m.receipts { self_test = some i.self_test_receipt };
        status = member_candidate_verified;
      } in
      let e : t ≡ record s { members = put i.member_issue_id new s.members } =
        ground (arith, rest) in
      let active : s.active_member_issue ≡ some i.member_issue_id =
        same-eq s.active_member_issue (some i.member_issue_id) (ground (arith, rest)) in
      let working = at_work s i.member_issue_id m w old active in
      subst (Keeps s) (sym e) (
        stored-Keeps s i.member_issue_id m new s.active_member_issue s.active_write_lease_id w old
          (λ g. absurd (ground (arith, g, working))) (ground (arith, m_fits, working, rest))
          (active-put _ none _ _ m old new (λ g. refl) w.active)
          (lease-put _ _ _ _ m old new (λ l g. ground (arith, g)) w.lease))

  pub released-Keeps :
      (i : ReleaseInput) → release_member_write_lease s i ≡ ok t → IsSound s → Keeps s t
  unfolding release_member_write_lease fits
  released-Keeps i h w =
      let (m, got, rest) = >>=-eq-ok (require_member s i.member_issue_id) _ h in
      let old = require_member-lookup s i.member_issue_id m got in
      let m_fits = every-lookup fits i.member_issue_id m s.members w.members old in
      let new : GroupMember = record m {
        write_lease = none;
        status =
            if i.reason == "implementation-complete"
              && is_some m.candidate_identity
              && is_verified m.receipts.self_test
            then member_awaiting_receipts
            else member_red;
      } in
      let e : t ≡ record s {
        active_write_lease_id = none;
        members = put i.member_issue_id new s.members;
      } =
        ground (arith, rest) in
      let active : s.active_member_issue ≡ some i.member_issue_id =
        same-eq s.active_member_issue (some i.member_issue_id) (ground (arith, rest)) in
      let working = at_work s i.member_issue_id m w old active in
      subst (Keeps s) (sym e) (
        stored-Keeps s i.member_issue_id m new s.active_member_issue none w old
          (λ g. absurd (ground (arith, g, working))) (ground (arith, m_fits, working, rest))
          (active-put _ none _ _ m old new (λ g. ground arith) w.active)
          (none_leased s.active_member_issue none (put i.member_issue_id new s.members) refl))
