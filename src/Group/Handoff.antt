-- ===== src/Group/Handoff.antt =====
-- The hand-off of a frozen group against the landing that receives it.
use issue_orchestration.Prelude.{
  String, true, false, some, none, List, [], ◌∷◌, ◌≡◌, refl, sym, subst, ap, ◌∙◌, arith, not, any,
  every, map, length, eqb, last?, is_distinct, same, same-eq, is_sha, is_printed, eq_refl, eq_iff,
  ok, >>=-eq-ok, reject,
}
use issue_orchestration.Landing.Handoff.{
  Handoff, HandoffMember, by_commit, texts, ordered_members, bad_handoff, validate_handoff,
}
use issue_orchestration.Group.Proposal.{Definition, Proposal}
use issue_orchestration.Group.Session.{
  Session, GroupMember, FrozenSource, require_session, create_acceptance_group_session,
  acceptance_group_source_tip_immutable,
}
use issue_orchestration.Group.Commits.{
  RemoteState, GroupHandoff, landing_handoff_required, handed_off, bad_source, members_in,
  commits_of, member_mapping_of, freeze_group_source, create_landing_handoff, is_current,
}
use issue_orchestration.Group.Sound.{IsSound, header_fits}
use issue_orchestration.Group.Runs.{Reach, created-IsSound, reached-Keeps}
use issue_orchestration.Group.Mapping.{
  Backs, by_commits, texts-printed, Backs-length, Backs-sha, good_members, mapped,
}

last-sha :
    (cs : List String) (tip : String)
    → any (λ c. not (is_sha (some c))) cs ≡ false
    → same (some tip) (last? cs) ≡ true
    → is_sha (some tip) ≡ true
unfolding any last? same
last-sha [] tip a h = cc
last-sha (c ∷ []) tip a h = ground (arith, eq_iff tip c)
last-sha (c ∷ d ∷ cs) tip a h = last-sha (d ∷ cs) tip (ground (arith, a)) h

-- `orderedMembers` of the mapping.
ordered :
    (h : Handoff) (ids : List String)
    → Backs ids h.ordered_green_commit_prefix h.member_mapping
    → is_distinct h.ordered_green_commit_prefix ≡ true
    → is_distinct ids ≡ true
    → every is_printed ids ≡ true
    → ordered_members h ≡ ok ids
unfolding ordered_members
ordered h ids b commits d printed =
    let found : texts (map (by_commit h.member_mapping) h.ordered_green_commit_prefix) ≡ ok ids =
      ap texts (by_commits b commits) ∙ texts-printed ids printed in
    ground (arith, found, Backs-length b, d)

-- What `validateHandoff` says to a hand-off whose mapping is backed.
validated :
    (h : Handoff) (ids : List String)
    → Backs ids h.ordered_green_commit_prefix h.member_mapping
    → is_distinct h.ordered_green_commit_prefix ≡ true
    → is_distinct ids ≡ true
    → every is_printed ids ≡ true
    → bad_handoff h ≡ false
    → h.source_history_operations ≡ []
    → h.dirty_inventory ≡ []
    → h.untracked_inventory ≡ []
    → last? h.ordered_green_commit_prefix ≡ some h.immutable_source_tip
    → validate_handoff h ≡ ok ids
unfolding validate_handoff same
validated h ids b commits d printed good history dirty untracked tip = ground (
  arith,
  ordered h ids b commits d printed,
  good,
  history,
  dirty,
  untracked,
  tip,
  eq_refl h.immutable_source_tip,
  good_members b,
)

abbrev frozen_session : Session → FrozenSource → List GroupMember → Session
frozen_session s i ms = record s {
  immutable_source_tip = some i.immutable_source_tip;
  ordered_green_commit_prefix = commits_of ms;
  frozen_source = some i;
}

empty : (xs : List String) → eqb (length xs) 0 ≡ true → xs ≡ []
empty [] h = refl
empty (x ∷ xs) h = absurd (ground arith)

nonempty : (cs : List String) (tip : String) → last? cs ≡ some tip → eqb (length cs) 0 ≡ false
unfolding last?
nonempty [] tip h = cc
nonempty (c ∷ cs) tip h = ground arith

module _ (s : Session) (i : FrozenSource) (r : RemoteState) (ms : List GroupMember)
    (mapping : List (String × HandoffMember)) (w : IsSound s) (good : bad_source s i ms ≡ false)
    (b : Backs s.member_order (commits_of ms) mapping) where
  tip_last : last? (commits_of ms) ≡ some i.immutable_source_tip
  unfolding bad_source
  tip_last =
      sym (same-eq (some i.immutable_source_tip) (last? (commits_of ms)) (ground (arith, good)))

  tip_sha : is_sha (some i.immutable_source_tip) ≡ true
  unfolding bad_source
  tip_sha = last-sha (commits_of ms) i.immutable_source_tip (Backs-sha b) (ground (arith, good))

  made :
      require_session s ≡ ok tt
      → is_current s r ≡ false
      → member_mapping_of s.members s.member_order ≡ ok mapping
      → create_landing_handoff (frozen_session s i ms) r
        ≡ ok (
            landing_handoff_required
              (handed_off (frozen_session s i ms) r i.immutable_source_tip i mapping))
  unfolding create_landing_handoff require_session
  made schema moved maps = ground (arith, schema, moved, maps, tip_sha)

  well_formed :
      any (λ c. not (is_printed c)) r.required_reverification_classes ≡ false
      → bad_handoff (handed_off (frozen_session s i ms) r i.immutable_source_tip i mapping).handoff
        ≡ false
  unfolding bad_handoff handed_off bad_source header_fits
  well_formed classes = ground (
    arith,
    good,
    w.header,
    classes,
    Backs-sha b,
    tip_sha,
    nonempty (commits_of ms) i.immutable_source_tip tip_last,
  )

  accepted :
      any (λ c. not (is_printed c)) r.required_reverification_classes ≡ false
      → is_distinct (commits_of ms) ≡ true
      → every is_printed s.member_order ≡ true
      → validate_handoff
          (handed_off (frozen_session s i ms) r i.immutable_source_tip i mapping).handoff
        ≡ ok s.member_order
  accepted classes commits printed =
      let h : Handoff =
        (handed_off (frozen_session s i ms) r i.immutable_source_tip i mapping).handoff in
      validated h s.member_order (unfold handed_off in b) (unfold handed_off in commits)
        (unfold header_fits in ground (arith, w.header)) printed (well_formed classes)
        (unfold handed_off in refl)
        (unfold handed_off in empty i.dirty_inventory (unfold bad_source in ground (arith, good)))
        (unfold handed_off in
          empty i.untracked_inventory (unfold bad_source in ground (arith, good)))
        (unfold handed_off in tip_last)

-- A hand-off of a session that is frozen, where the remote has moved on.
handed :
    (s u : Session) (i : FrozenSource) (r : RemoteState)
    → IsSound s
    → freeze_group_source s i ≡ ok u
    → is_current s r ≡ false
    → is_distinct u.ordered_green_commit_prefix ≡ true
    → every is_printed s.member_order ≡ true
    → any (λ c. not (is_printed c)) r.required_reverification_classes ≡ false
    → (h : GroupHandoff) × ((create_landing_handoff u r ≡ ok (landing_handoff_required h))
        × (validate_handoff h.handoff ≡ ok s.member_order))
unfolding freeze_group_source
handed s u i r w h moved commits printed classes =
    let (x, got, rest) = >>=-eq-ok (require_session s) _ h in
    let (v, free, more) =
      >>=-eq-ok
        (reject (not (same s.immutable_source_tip none)) acceptance_group_source_tip_immutable) _
        rest in
    let (ms, at, last) = >>=-eq-ok (members_in s.members s.member_order) _ more in
    let good : bad_source s i ms ≡ false = ground (arith, last) in
    let e : u ≡ frozen_session s i ms = ground (arith, last) in
    let (mapping, (maps, b)) =
      mapped s.members s.member_order ms w.members at (unfold bad_source in ground (arith, good))
        (unfold bad_source in ground (arith, good)) in
    (
      handed_off (frozen_session s i ms) r i.immutable_source_tip i mapping,
      (
        ap (λ x. create_landing_handoff x r) e ∙ made s i r ms mapping w good b got moved maps,
        accepted s i r ms mapping w good b classes
            (subst (λ x. is_distinct x.ordered_green_commit_prefix ≡ true) e commits) printed,
      ),
    )

-- A session that is created, and run by any calls to one that is frozen, is handed off, where the
-- remote head or the epoch has changed, the commits of the members differ from each other, and the
-- identifiers of the members and the classes to verify again are not blank: `validateHandoff`
-- accepts what `createLandingHandoff` returns, and gives the members in the order of the group.
pub reached_handoff :
    (definition_digest : Definition → String) (digest : List (String × String) → String)
    (p : Proposal) (s t u : Session) (i : FrozenSource) (r : RemoteState)
    → create_acceptance_group_session definition_digest p ≡ ok s
    → Reach digest s t
    → freeze_group_source t i ≡ ok u
    → is_current t r ≡ false
    → is_distinct u.ordered_green_commit_prefix ≡ true
    → every is_printed t.member_order ≡ true
    → any (λ c. not (is_printed c)) r.required_reverification_classes ≡ false
    → (h : GroupHandoff) × ((create_landing_handoff u r ≡ ok (landing_handoff_required h))
        × (validate_handoff h.handoff ≡ ok t.member_order))
reached_handoff definition_digest digest p s t u i r created run =
    handed t u i r (reached-Keeps run (created-IsSound definition_digest p s created)).sound
