-- ===== src/Ledger/Owners.antt =====
-- The owners of the write leases and the activations of the groups over a whole replay.
use issue_orchestration.Prelude.{
  String, true, false, some, List, [], ◌∷◌, ◌++◌, ◌==◌, ◌≡◌, refl, sym, ap, ◌∙◌, arith, Memᴰ, ok,
  >>=-eq-ok, reject-eq-ok, eq_iff, eq_refl, Bool-cases, inl, inr, includes, codes, starts_with,
}
use issue_orchestration.Ledger.Rules.{transition_table}
use issue_orchestration.Ledger.Groups.{
  Groups, GroupEvent, lookup, with_group, with_member, is_session, reduce_session, owned_by_another,
  grant_lease, revoke_lease, advance_member, reduce_group, replay_groups, is_none,
  event_type_unsupported,
}

-- The event grants a write lease.
abbrev pub Grants : GroupEvent → Type 0
Grants e = e.event_type ≡ "group.member.write-lease-granted"

-- The event activates its group.
abbrev pub Activates : GroupEvent → Type 0
Activates e = e.event_type ≡ "group.session.activated"

session-owners :
    (e : GroupEvent) (s s' : Groups) → reduce_session e s ≡ ok s' → s'.lease_owners ≡ s.lease_owners
unfolding reduce_session with_group
session-owners e s s' h = ground arith

advance-owners :
    (e : GroupEvent) (s s' : Groups) → advance_member e s ≡ ok s' → s'.lease_owners ≡ s.lease_owners
unfolding advance_member with_member with_group
advance-owners e s s' h = ground arith

advance-activated :
    (e : GroupEvent) (s s' : Groups)
    → advance_member e s ≡ ok s'
    → s'.activated_groups ≡ s.activated_groups
unfolding advance_member with_member with_group
advance-activated e s s' h = ground arith

revoke-owners : (e : GroupEvent) (s : Groups) → (revoke_lease e s).lease_owners ≡ s.lease_owners
unfolding revoke_lease with_member with_group
revoke-owners e s = refl

grant-owners :
    (e : GroupEvent) (s s' : Groups)
    → grant_lease e s ≡ ok s'
    → (s'.lease_owners ≡ (e.lease_id, e.member_id) ∷ s.lease_owners)
      × (owned_by_another (lookup e.lease_id s.lease_owners) e.member_id ≡ false)
unfolding grant_lease
grant-owners e s s' h = (ground arith, ground arith)

grant-activated :
    (e : GroupEvent) (s s' : Groups)
    → grant_lease e s ≡ ok s'
    → s'.activated_groups ≡ s.activated_groups
unfolding grant_lease with_member with_group
grant-activated e s s' h = ground arith

-- A grant of another lease, or to the owner, leaves the owner of a lease.
grant-keeps :
    (e : GroupEvent) (l m : String) (s s' : Groups)
    → grant_lease e s ≡ ok s'
    → lookup l s.lease_owners ≡ some m
    → (m == "") ≡ false
    → lookup l s'.lease_owners ≡ some m
unfolding lookup owned_by_another
grant-keeps e l m s s' h o named =
    let (entry, free) = grant-owners e s s' h in
    rw entry (elim (Bool-cases (e.lease_id == l)) [
      | inl t ↦ rw t (ground (arith, eq_iff e.lease_id l, eq_iff m e.member_id))
      | inr t ↦ rw t o
    ])

-- A reduction leaves the owner of a lease.
reduce-keeps :
    (e : GroupEvent) (l m : String) (s s' : Groups)
    → reduce_group e s ≡ ok s'
    → lookup l s.lease_owners ≡ some m
    → (m == "") ≡ false
    → lookup l s'.lease_owners ≡ some m
unfolding reduce_group
reduce-keeps e l m s s' h o named = elim (Bool-cases (is_session e)) [
  | inl a ↦ ap (lookup l) (session-owners e s s' (ground (arith, a))) ∙ o
  | inr a ↦ elim (Bool-cases (e.event_type == "group.member.write-lease-granted")) [
    | inl b ↦ grant-keeps e l m s s' (ground (arith, a, b)) o named
    | inr b ↦ elim (Bool-cases (e.event_type == "group.member.write-lease-revoked")) [
      | inl c ↦
          let r : s' ≡ revoke_lease e s = ground (arith, a, b, c) in
          ap (λ x. lookup l x.lease_owners) r ∙ (ap (lookup l) (revoke-owners e s) ∙ o)
      | inr c ↦ ap (lookup l) (advance-owners e s s' (ground (arith, a, b, c))) ∙ o
    ]
  ]
]

-- A step of the replay.
replay-step :
    (e : GroupEvent) (es : List GroupEvent) (s s' : Groups)
    → replay_groups (e ∷ es) s ≡ ok s'
    → (n : Groups) × (reduce_group e s ≡ ok n) × (replay_groups es n ≡ ok s')
unfolding replay_groups
replay-step e es s s' h =
    let (known, rest) =
      reject-eq-ok (is_none (transition_table e.event_type)) event_type_unsupported _ h in
    >>=-eq-ok (reduce_group e s) (replay_groups es) rest

replay-keeps :
    (es : List GroupEvent) (l m : String) (s s' : Groups)
    → replay_groups es s ≡ ok s'
    → lookup l s.lease_owners ≡ some m
    → (m == "") ≡ false
    → lookup l s'.lease_owners ≡ some m
unfolding replay_groups
replay-keeps [] l m s s' h o named = ground arith
replay-keeps (e ∷ es) l m s s' h o named =
    let (n, first, rest) = replay-step e es s s' h in
    replay-keeps es l m n s' rest (reduce-keeps e l m s n first o named) named

granted-owner :
    (e : GroupEvent) (s s' : Groups)
    → Grants e
    → reduce_group e s ≡ ok s'
    → lookup e.lease_id s'.lease_owners ≡ some e.member_id
unfolding reduce_group lookup is_session starts_with codes
granted-owner e s s' g h =
    let made : grant_lease e s ≡ ok s' = sym (simp g) ∙ h in
    rw ((grant-owners e s s' made).0) (rw (eq_refl e.lease_id) refl)

final-owner :
    (es : List GroupEvent) (e : GroupEvent) (s s' : Groups)
    → replay_groups es s ≡ ok s'
    → Memᴰ e es
    → Grants e
    → (e.member_id == "") ≡ false
    → lookup e.lease_id s'.lease_owners ≡ some e.member_id
final-owner [] e s s' h i g named = elim i [ ]
final-owner (f ∷ es) e s s' h (Memᴰ.head same) g named =
    let (n, first, rest) = replay-step f es s s' h in
    let owned = granted-owner e s n g (ap (λ x. reduce_group x s) same ∙ first) in
    replay-keeps es e.lease_id e.member_id n s' rest owned named
final-owner (f ∷ es) e s s' h (Memᴰ.tail i) g named =
    let (n, first, rest) = replay-step f es s s' h in final-owner es e n s' rest i g named

-- In a replay that is accepted, two events that grant the same write lease, each to a member with
-- a name that is not empty, grant it to the same member.
pub replay_groups-lease_owner :
    (es : List GroupEvent) (s s' : Groups) (e f : GroupEvent)
    → replay_groups es s ≡ ok s'
    → Memᴰ e es
    → Memᴰ f es
    → Grants e
    → Grants f
    → (e.member_id == "") ≡ false
    → (f.member_id == "") ≡ false
    → e.lease_id ≡ f.lease_id
    → e.member_id ≡ f.member_id
replay_groups-lease_owner es s s' e f h i j g k named other same =
    let first = final-owner es e s s' h i g named in
    let second = final-owner es f s s' h j k other in
    let both : some e.member_id ≡ some f.member_id =
      sym first ∙ (ap (λ l. lookup l s'.lease_owners) same ∙ second) in
    cc

-- A reduction leaves a group activated.
session-activated :
    (e : GroupEvent) (id : String) (s s' : Groups)
    → reduce_session e s ≡ ok s'
    → includes s.activated_groups id ≡ true
    → includes s'.activated_groups id ≡ true
unfolding reduce_session with_group includes
session-activated e id s s' h i = ground arith

reduce-activated :
    (e : GroupEvent) (id : String) (s s' : Groups)
    → reduce_group e s ≡ ok s'
    → includes s.activated_groups id ≡ true
    → includes s'.activated_groups id ≡ true
unfolding reduce_group revoke_lease with_member with_group
reduce-activated e id s s' h i = elim (Bool-cases (is_session e)) [
  | inl a ↦ session-activated e id s s' (ground (arith, a)) i
  | inr a ↦ elim (Bool-cases (e.event_type == "group.member.write-lease-granted")) [
    | inl b ↦ ap (λ xs. includes xs id) (grant-activated e s s' (ground (arith, a, b))) ∙ i
    | inr b ↦ elim (Bool-cases (e.event_type == "group.member.write-lease-revoked")) [
      | inl c ↦
          let r : s' ≡ revoke_lease e s = ground (arith, a, b, c) in
          ap (λ x. includes x.activated_groups id) r ∙ i
      | inr c ↦ ap (λ xs. includes xs id) (advance-activated e s s' (ground (arith, a, b, c))) ∙ i
    ]
  ]
]

session-activates :
    (e : GroupEvent) (s s' : Groups)
    → (e.event_type == "group.session.activated") ≡ true
    → reduce_session e s ≡ ok s'
    → (includes s.activated_groups e.group_id ≡ false)
      × (includes s'.activated_groups e.group_id ≡ true)
unfolding reduce_session with_group includes
session-activates e s s' a h = (ground (arith, a), ground (arith, a, eq_refl e.group_id))

-- An event that activates a group finds it not activated, and leaves it so.
activation :
    (e : GroupEvent) (s s' : Groups)
    → Activates e
    → reduce_group e s ≡ ok s'
    → (includes s.activated_groups e.group_id ≡ false)
      × (includes s'.activated_groups e.group_id ≡ true)
unfolding reduce_group is_session starts_with codes
activation e s s' a h =
    let made : reduce_session e s ≡ ok s' = sym (simp a) ∙ h in
    session-activates e s s' (rw a refl) made

not-activated-again :
    (es : List GroupEvent) (e : GroupEvent) (id : String) (s s' : Groups)
    → replay_groups es s ≡ ok s'
    → includes s.activated_groups id ≡ true
    → Memᴰ e es
    → Activates e
    → ¬ e.group_id ≡ id
not-activated-again [] e id s s' h i m a same = elim m [ ]
not-activated-again (f ∷ es) e id s s' h i (Memᴰ.head hd) a same =
    let (n, first, rest) = replay-step f es s s' h in
    let free = (activation e s n a (ap (λ x. reduce_group x s) hd ∙ first)).0 in
    let again : includes s.activated_groups id ≡ false =
      ap (includes s.activated_groups) (sym same) ∙ free in
    cc
not-activated-again (f ∷ es) e id s s' h i (Memᴰ.tail m) a same =
    let (n, first, rest) = replay-step f es s s' h in
    not-activated-again es e id n s' rest (reduce-activated f id s n first i) m a same

-- In a replay that is accepted no event activates a group that an earlier event has activated.
pub replay_groups-activated_once :
    (es fs : List GroupEvent) (e f : GroupEvent) (s s' : Groups)
    → replay_groups (es ++ e ∷ fs) s ≡ ok s'
    → Activates e
    → Memᴰ f fs
    → Activates f
    → ¬ f.group_id ≡ e.group_id
replay_groups-activated_once [] fs e f s s' h a m b =
    let (n, first, rest) = replay-step e fs s s' h in
    not-activated-again fs f e.group_id n s' rest (activation e s n a first).1 m b
replay_groups-activated_once (g ∷ es) fs e f s s' h a m b =
    let (n, first, rest) = replay-step g (es ++ e ∷ fs) s s' h in
    replay_groups-activated_once es fs e f n s' rest a m b
