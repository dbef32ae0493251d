-- ===== src/Ledger/Examples.antt =====
-- The group events of a short replay, and an entry into `closed`.
use issue_orchestration.Prelude.{
  String, Bool, true, false, some, none, List, [], ◌∷◌, ◌++◌, ◌≡◌, refl, Memᴰ, ok, ◌⊎◌, includes,
  starts_with, codes, any, Result, err, find,
}
use issue_orchestration.Ledger.Rules.{Rule, rules, transition_table, permitted, allows}
use issue_orchestration.Ledger.Groups.{
  Groups, GroupEvent, no_groups, Code, advance_member, out_of_order, replay_groups, reduce_group,
  reduce_session, grant_lease, revoke_lease, is_session, group_of, group_member, with_group,
  with_member, lookup, owned_by_another, removed,
}
use issue_orchestration.Ledger.Owners.{replay_groups-lease_owner, replay_groups-activated_once}
use issue_orchestration.Ledger.Closing.{wildcards, closed_from_cleaning}

abbrev event : String → String → String → String → GroupEvent
event group type to_state lease = record {
  event_type = type;
  to_state = to_state;
  group_id = group;
  member_id = "member-1";
  lease_id = lease;
  candidate_sha = none;
}

abbrev grant : GroupEvent
grant = event "group-1" "group.member.write-lease-granted" "lease-granted" "lease-1"

abbrev grant_again : GroupEvent
grant_again = event "group-2" "group.member.write-lease-granted" "lease-granted" "lease-1"

abbrev revoke : GroupEvent
revoke = event "group-1" "group.member.write-lease-revoked" "lease-revoked" "lease-1"

abbrev activate : String → GroupEvent
activate group = event group "group.session.activated" "active" ""

abbrev opening : List GroupEvent
opening =
    event "group-1" "group.session.proposed" "proposed" ""
    ∷ event "group-1" "group.session.created" "created" ""
    ∷ event "group-2" "group.session.proposed" "proposed" ""
    ∷ event "group-2" "group.session.created" "created" ""
    ∷ []

abbrev granting : List GroupEvent
granting = grant ∷ revoke ∷ grant_again ∷ []

abbrev end : Result Code Groups → Groups
end (ok s) = s
end (err e) = no_groups

leased : Groups
leased = end (replay_groups granting no_groups)

granting-replays : replay_groups granting no_groups ≡ ok leased
unfolding leased replay_groups reduce_group grant_lease revoke_lease is_session transition_table
    rules starts_with codes group_of group_member with_group with_member lookup owned_by_another
    removed find
granting-replays = refl

replay_groups-lease_owner_example : grant.member_id ≡ grant_again.member_id
replay_groups-lease_owner_example =
    replay_groups-lease_owner granting no_groups leased grant grant_again granting-replays
      (Memᴰ.head refl) (Memᴰ.tail (Memᴰ.tail (Memᴰ.head refl))) refl refl refl refl refl

abbrev session : List GroupEvent
session = opening ++ activate "group-1" ∷ activate "group-2" ∷ []

active : Groups
active = end (replay_groups session no_groups)

session-replays : replay_groups session no_groups ≡ ok active
unfolding active replay_groups reduce_group reduce_session grant_lease is_session transition_table
    rules permitted allows any includes starts_with codes group_of group_member with_group
    with_member lookup owned_by_another find
session-replays = refl

replay_groups-activated_once_example :
    ¬ (activate "group-2").group_id ≡ (activate "group-1").group_id
replay_groups-activated_once_example =
    replay_groups-activated_once opening (activate "group-2" ∷ []) (activate "group-1")
      (activate "group-2") no_groups active session-replays refl (Memᴰ.head refl) refl

abbrev closing : Rule
closing = record { event_type = "issue.closed"; transitions = ("cleaning", "closed") ∷ [] }

closing-found : transition_table "issue.closed" ≡ some closing
unfolding transition_table rules find
closing-found = refl

closing-permitted : permitted closing "cleaning" "closed" ≡ true
unfolding permitted allows any
closing-permitted = refl

abbrev from : String
from = "cleaning"

closed_from_cleaning_example :
    (from ≡ "cleaning") ⊎ ((from ≡ "closed") ⊎ (includes wildcards "issue.closed" ≡ true))
closed_from_cleaning_example =
    closed_from_cleaning "issue.closed" from closing closing-found closing-permitted

-- The status of a member is the `toState` of whatever event it gets: after a contract that is frozen
-- to `behavior-green`, a commit passes with no event of its behavior.
abbrev shortcut : List GroupEvent
shortcut =
    event "group-1" "group.member.test-contract-frozen" "behavior-green" ""
    ∷ event "group-1" "group.member.committed" "committed" ""
    ∷ []

abbrev marks : Groups → Bool × Bool
marks s = let m = group_member "member-1" (group_of "group-1" s) in (m.committed, m.behavior_green)

shortcut-committed : marks (end (replay_groups shortcut no_groups)) ≡ (true, false)
unfolding replay_groups reduce_group advance_member is_session transition_table rules starts_with
    codes group_of group_member with_group with_member lookup find out_of_order
shortcut-committed = refl
