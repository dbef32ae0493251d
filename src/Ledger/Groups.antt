-- ===== src/Ledger/Groups.antt =====
-- `reduceGroup` and `groupMember` of the replay, on the events whose type starts with `group.`. The
-- maps of the source are association lists; a new entry hides an older one.
use issue_orchestration.Prelude.{
  String, Bool, true, false, Option, some, none, List, [], ◌∷◌, ◌==◌, not, ◌&&◌, ◌||◌, filter,
  includes, codes, starts_with, if◌then◌else◌, Result, ok, reject, ◌>>=◌, ◌>>◌,
}
use issue_orchestration.Ledger.Rules.{Rule, transition_table, permitted}

pub data Code : Type 0 where
  group_active_member_duplicate group_transition_not_allowed group_lease_conflict : Code
  group_member_stage_order event_type_unsupported : Code

pub record Member : Type 0 where
  pub status : String
  pub lease_id : Option String
  pub candidate_sha : Option String
  pub behavior_green : Bool
  pub committed : Bool
  pub delivery_completed : Bool

pub record Group : Type 0 where
  pub status : String
  pub members : List (String × Member)

-- `projection.groups` and the parts of the context that the reducer of the groups uses.
pub record Groups : Type 0 where
  pub groups : List (String × Group)
  pub activated_groups : List String
  pub lease_owners : List (String × String)
  pub leases : List (String × String)

-- A group event: its type, its `toState` and the fields of its payload.
pub record GroupEvent : Type 0 where
  pub event_type : String
  pub to_state : String
  pub group_id : String
  pub member_id : String
  pub lease_id : String
  pub candidate_sha : Option String

abbrev pub no_groups : Groups
no_groups = record { groups = []; activated_groups = []; lease_owners = []; leases = [] }

-- map.get(key)
unfoldable pub lookup {ℓ} : {A : Type ℓ} → String → List (String × A) → Option A
lookup k [] = none
lookup k ((j, a) ∷ entries) = if j == k then some a else lookup k entries

-- map.delete(key)
unfoldable pub removed {ℓ} : {A : Type ℓ} → String → List (String × A) → List (String × A)
unfolding filter
removed k entries = filter (λ entry. not (entry.0 == k)) entries

abbrev new_group : Option Group → Group
new_group none = record { status = "none"; members = [] }
new_group (some g) = g

abbrev new_member : Option Member → Member
new_member none = record {
  status = "none";
  lease_id = none;
  candidate_sha = none;
  behavior_green = false;
  committed = false;
  delivery_completed = false;
}
new_member (some m) = m

-- projection.groups[groupId] ??= …
unfoldable pub group_of : String → Groups → Group
unfolding lookup
group_of id s = new_group (lookup id s.groups)

-- groupMember
unfoldable pub group_member : String → Group → Member
unfolding lookup
group_member id g = new_member (lookup id g.members)

unfoldable pub with_group : String → Group → Groups → Groups
with_group id g s = record s { groups = (id, g) ∷ s.groups }

unfoldable pub with_member : GroupEvent → Member → Groups → Groups
unfolding group_of with_group
with_member e m s =
    let g = group_of e.group_id s in
    with_group e.group_id (record g { members = (e.member_id, m) ∷ g.members }) s

unfoldable pub is_session : GroupEvent → Bool
unfolding starts_with codes
is_session e = starts_with (codes e.event_type) (codes "group.session.")

abbrev rule_permits : Option Rule → String → String → Bool
rule_permits none from_state to_state = false
rule_permits (some r) from_state to_state = permitted r from_state to_state

-- The branch of `reduceGroup` for the events of the session.
unfoldable pub reduce_session : GroupEvent → Groups → Result Code Groups
reduce_session e s = do
  let activates = e.event_type == "group.session.activated"
  let g = group_of e.group_id s
  reject (activates && includes s.activated_groups e.group_id) group_active_member_duplicate
  reject (not (rule_permits (transition_table e.event_type) g.status e.to_state))
      group_transition_not_allowed
  let moved = with_group e.group_id (record g { status = e.to_state }) s
  ok (
      if activates
      then record moved { activated_groups = e.group_id ∷ moved.activated_groups }
      else moved)

-- `owner && owner !== payload.memberId`: an empty owner counts as none.
unfoldable pub owned_by_another : Option String → String → Bool
owned_by_another none member = false
owned_by_another (some owner) member = not (owner == "") && not (owner == member)

unfoldable pub grant_lease : GroupEvent → Groups → Result Code Groups
grant_lease e s = do
  let m = group_member e.member_id (group_of e.group_id s)
  reject (owned_by_another (lookup e.lease_id s.lease_owners) e.member_id) group_lease_conflict
  let next = with_member e (record m { lease_id = some e.lease_id }) s
  ok (record next {
    lease_owners = (e.lease_id, e.member_id) ∷ s.lease_owners;
    leases = (e.lease_id, e.member_id) ∷ s.leases;
  })

unfoldable pub revoke_lease : GroupEvent → Groups → Groups
revoke_lease e s =
    let m = group_member e.member_id (group_of e.group_id s) in
    let next = with_member e (record m { lease_id = none }) s in
    record next { leases = removed e.lease_id s.leases }

-- The table `required`; an event without an entry requires nothing.
unfoldable pub out_of_order : String → String → Bool
out_of_order event_type status =
    if event_type == "group.member.behavior-green"
    then not (status == "candidate-green")
    else if event_type == "group.member.committed"
    then not (status == "behavior-green")
    else if event_type == "group.member.delivery-completed"
    then not (status == "committed")
    else false

unfoldable pub advance_member : GroupEvent → Groups → Result Code Groups
advance_member e s = do
  let m = group_member e.member_id (group_of e.group_id s)
  reject (out_of_order e.event_type m.status) group_member_stage_order
  ok (
      with_member e
        (record m {
          status = e.to_state;
          candidate_sha =
              if e.event_type == "group.member.candidate-created"
              then e.candidate_sha
              else m.candidate_sha;
          behavior_green = e.event_type == "group.member.behavior-green" || m.behavior_green;
          committed = e.event_type == "group.member.committed" || m.committed;
          delivery_completed =
              e.event_type == "group.member.delivery-completed" || m.delivery_completed;
        })
        s)

-- reduceGroup
unfoldable pub reduce_group : GroupEvent → Groups → Result Code Groups
reduce_group e s =
    if is_session e
    then reduce_session e s
    else if e.event_type == "group.member.write-lease-granted"
    then grant_lease e s
    else if e.event_type == "group.member.write-lease-revoked"
    then ok (revoke_lease e s)
    else advance_member e s

abbrev pub is_none {ℓ} : {A : Type ℓ} → Option A → Bool
is_none none = true
is_none (some a) = false

-- The part of `replayLedger` that looks up the rule and reduces the group events, as the historical
-- mode does. The events are group events: those of nodes are dispatched elsewhere.
unfoldable pub replay_groups : List GroupEvent → Groups → Result Code Groups
replay_groups [] s = ok s
replay_groups (e ∷ es) s = do
  reject (is_none (transition_table e.event_type)) event_type_unsupported
  next ← reduce_group e s
  replay_groups es next
