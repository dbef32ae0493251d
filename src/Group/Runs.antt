-- ===== src/Group/Runs.antt =====
-- The sessions that are reached from a created one, by any sequence of calls.
use issue_orchestration.Prelude.{
  String, Bool, true, Option, some, none, List, [], ◌∷◌, ◌≡◌, refl, ap₂, sym, subst, arith, ◌&&◌,
  every, map, lookup, has, is_some, eq_iff, ok, Option-cases, inl, inr, is_sha, same, ◌∙◌,
  every-lookup,
}
use issue_orchestration.Group.Proposal.{
  ProposedMember, Definition, Proposal, same_texts, eligible_member, eligible_members,
  bad_definition, proposal_is_eligible,
}
use issue_orchestration.Group.Session.{
  Session, GroupMember, WriteLease, MemberReceipt, MemberCommit, is_green, receipts_are_green,
  pending_member, new_session, create_acceptance_group_session,
}
use issue_orchestration.Group.Operations.{candidate_sha_of}
use issue_orchestration.Group.Sound.{
  Step, IsSound, fits, header_fits, is_under_lease, is_holder, lease_fits,
}
use issue_orchestration.Group.Fits.{Keeps}
use issue_orchestration.Group.Kept.{Step-Keeps}

-- A run of calls that return.
pub data Reach (digest : List (String × String) → String) (s : Session) : Session → Type 0 where
  here : Reach digest s s
  next : {t u : Session} → Reach digest s t → Step digest t u → Reach digest s u

same_texts-eq : (xs ys : List String) → same_texts xs ys ≡ true → xs ≡ ys
unfolding same_texts
same_texts-eq [] [] h = refl
same_texts-eq [] (y ∷ ys) h = cc
same_texts-eq (x ∷ xs) [] h = cc
same_texts-eq (x ∷ xs) (y ∷ ys) h =
    ap₂ (λ z zs. z ∷ zs) ((eq_iff x y).0 (ground arith)) (same_texts-eq xs ys (ground arith))

pending-fits :
    (d : Definition) (ms : List ProposedMember) (ids : List String)
    → eligible_members d ms ids ≡ true
    → every (λ e. fits e.1) (map pending_member ms) ≡ true
unfolding eligible_members eligible_member every fits pending_member
pending-fits d [] ids h = refl
pending-fits d (m ∷ ms) [] h = cc
pending-fits d (m ∷ ms) (id ∷ ids) h = ground (arith, pending-fits d ms ids)

abbrev test_of : Option MemberReceipt → Option String
test_of none = none
test_of (some r) = r.candidate_sha

abbrev commit_of : Option MemberCommit → Option String
commit_of none = none
commit_of (some c) = c.candidate_sha

-- The candidate of the self test and of the commit is the member's.
abbrev pub records_candidate : GroupMember → Bool
records_candidate m =
    same (test_of m.receipts.self_test) (candidate_sha_of m.candidate_identity)
    && same (commit_of m.commit) (candidate_sha_of m.candidate_identity)

-- A session that is created is sound.
pub created-IsSound :
    (digest : Definition → String) (p : Proposal) (s : Session)
    → create_acceptance_group_session digest p ≡ ok s
    → IsSound s
unfolding create_acceptance_group_session new_session proposal_is_eligible header_fits
    bad_definition
created-IsSound digest p s h =
    let e : s ≡ new_session p = ground arith in
    let order =
      same_texts-eq p.definition.member_order p.definition.member_issue_ids (ground arith) in
    subst IsSound (sym e) (record {
      header = ground (arith, order, h);
      members =
          pending-fits p.definition p.definition.members p.definition.member_issue_ids
            (ground arith);
      active = refl;
      lease = refl;
    })

pub reached-Keeps :
    {digest : List (String × String) → String} {s t : Session}
    → Reach digest s t
    → IsSound s
    → Keeps s t
reached-Keeps here w = record { sound = w; green = λ id g. g; source = λ f. (refl, (refl, refl)) }
reached-Keeps (next r step) w =
    let k = reached-Keeps r w in
    let l = Step-Keeps step k.sound in
    record {
      sound = l.sound;
      green = λ id g. l.green id (k.green id g);
      source = λ f.
          let a = k.source f in
          let b = l.source (subst (λ o. is_some o ≡ true) (sym a.0) f) in
          (b.0 ∙ a.0, (b.1.0 ∙ a.1.0, b.1.1 ∙ a.1.1));
    }

holder :
    (lease_id : String) (m : GroupMember)
    → is_holder lease_id m ≡ true
    → (l : WriteLease) × ((m.write_lease ≡ some l)
        × ((l.lease_id ≡ lease_id) × (is_under_lease m.status ≡ true)))
unfolding same
holder lease_id m h = elim (Option-cases m.write_lease) [
  | inl e ↦ absurd (ground (arith, e))
  | inr (l, e) ↦ (l, (e, (ground (arith, e, eq_iff lease_id l.lease_id), ground (arith, e))))
]

writer :
    (s : Session) (lease_id : String) (active : Option String)
    → lease_fits (some lease_id) active s.members ≡ true
    → (id : String) × ((active ≡ some id) × (has (is_holder lease_id) (lookup s.members id) ≡ true))
writer s lease_id none h = cc
writer s lease_id (some id) h = (id, (refl, h))

held :
    (s : Session) (id lease_id : String)
    → has (is_holder lease_id) (lookup s.members id) ≡ true
    → (m : GroupMember) × ((lookup s.members id ≡ some m)
        × ((l : WriteLease) × ((m.write_lease ≡ some l)
              × ((l.lease_id ≡ lease_id) × (is_under_lease m.status ≡ true)))))
held s id lease_id h = elim (Option-cases (lookup s.members id)) [
  | inl e ↦ absurd (ground (arith, e))
  | inr (m, e) ↦ (m, (e, holder lease_id m (ground (arith, e))))
]

module _ (definition_digest : Definition → String) (digest : List (String × String) → String)
    (p : Proposal) (s t : Session)
    (created : create_acceptance_group_session definition_digest p ≡ ok s)
    (run : Reach digest s t) where
  -- After any calls on a session that is created, an active write lease is held by the active member:
  -- the member has a lease of that identifier and is being written, or its candidate is verified.
  pub reached_writer :
      (lease_id : String)
      → t.active_write_lease_id ≡ some lease_id
      → (id : String) × ((t.active_member_issue ≡ some id)
          × ((m : GroupMember) × ((lookup t.members id ≡ some m)
                × ((l : WriteLease) × ((m.write_lease ≡ some l)
                      × ((l.lease_id ≡ lease_id) × (is_under_lease m.status ≡ true)))))))
  reached_writer lease_id leased =
      let k = reached-Keeps run (created-IsSound definition_digest p s created) in
      let w = k.sound in
      let (id, (active, h)) =
        writer t lease_id t.active_member_issue
          (subst (λ o. lease_fits o t.active_member_issue t.members ≡ true) leased w.lease) in
      (id, (active, held t id lease_id h))

  -- After any calls on a session that is created, a member that is green has a well-formed commit,
  -- its three receipts are verified, and its self test is of its candidate, which its commit
  -- records. It is green after any further calls.
  pub reached_green :
      (u : Session) (id : String) (m : GroupMember)
      → Reach digest t u
      → lookup t.members id ≡ some m
      → is_green m.status ≡ true
      → (is_sha m.commit_sha ≡ true)
        × ((receipts_are_green m ≡ true)
            × ((records_candidate m ≡ true)
                × (has (λ n. is_green n.status) (lookup u.members id) ≡ true)))
  unfolding fits receipts_are_green
  reached_green u id m more at green =
      let k = reached-Keeps run (created-IsSound definition_digest p s created) in
      let w = k.sound in
      let m_fits = every-lookup fits id m t.members w.members at in
      let n = reached-Keeps more w in
      (
        ground (arith, m_fits),
        (ground (arith, m_fits), (ground (arith, m_fits), n.green id (rw at green))),
      )
