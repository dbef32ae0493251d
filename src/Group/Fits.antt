-- ===== src/Group/Fits.antt =====
-- When the active member and the active lease fit the members, and that they do after a change.
use issue_orchestration.Prelude.{
  String, true, false, Option, some, none, is_some, List, ◌==◌, ◌≡◌, refl, arith, same, eq_iff,
  eq_refl, lookup-put_other, lookup, put, has, has-put, every-put, ok,
}
use issue_orchestration.Group.Session.{Session, GroupMember, WriteLease, is_green, require_member}
use issue_orchestration.Group.Sound.{
  IsSound, fits, is_working, is_under_lease, is_holder, active_fits, lease_fits, header_fits,
}

pub require_member-lookup :
    (s : Session) (id : String) (m : GroupMember)
    → require_member s id ≡ ok m
    → lookup s.members id ≡ some m
unfolding require_member
require_member-lookup s id m h = ground arith

module _ (active lease : Option String) (entries : List (String × GroupMember)) where
  pub none_active : active ≡ none → active_fits active entries ≡ true
  none_active a = rw a refl

  pub none_leased : lease ≡ none → lease_fits lease active entries ≡ true
  none_leased l = rw l refl

  module _ (id : String) (m : GroupMember) (at : lookup entries id ≡ some m) where
    pub is_active :
        active ≡ some id → is_working m.status ≡ true → active_fits active entries ≡ true
    is_active a working = rw a (rw at working)

    pub is_leased :
        (l : WriteLease)
        → active ≡ some id
        → lease ≡ some l.lease_id
        → m.write_lease ≡ some l
        → is_under_lease m.status ≡ true
        → lease_fits lease active entries ≡ true
    unfolding same
    is_leased l a b held under = ground (arith, a, b, at, held, under, eq_refl l.lease_id)

    -- A member that stays at work, and one that stays the holder.
    pub active-put :
        (n : GroupMember)
        → (is_working m.status ≡ true → is_working n.status ≡ true)
        → active_fits active entries ≡ true
        → active_fits active (put id n entries) ≡ true
    active-put n keeps h =
        elim active
            as (λ a. active_fits a entries ≡ true → active_fits a (put id n entries) ≡ true) [
              | none ↦ λ g. refl
              | some other ↦ λ g. has-put (λ x. is_working x.status) id other n m entries at keeps g
            ]
          h

    pub lease-put :
        (n : GroupMember)
        → ((l : String) → is_holder l m ≡ true → is_holder l n ≡ true)
        → lease_fits lease active entries ≡ true
        → lease_fits lease active (put id n entries) ≡ true
    lease-put n keeps h = leases lease active h
      where
        leases :
            (l a : Option String)
            → lease_fits l a entries ≡ true
            → lease_fits l a (put id n entries) ≡ true
        leases none a g = refl
        leases (some l) none g = g
        leases (some l) (some other) g = has-put (is_holder l) id other n m entries at (keeps l) g

-- A change of a member that is not the active one.
module _ (id : String) (n : GroupMember) (entries : List (String × GroupMember)) where
  apart : (other : String) → same (some other) (some id) ≡ false → (id == other) ≡ false
  unfolding same
  apart other h = ground (arith, eq_iff id other, eq_refl other)

  pub active-put_other :
      (active : Option String)
      → same active (some id) ≡ false
      → active_fits active entries ≡ true
      → active_fits active (put id n entries) ≡ true
  active-put_other none d h = refl
  active-put_other (some other) d h = rw (lookup-put_other id other n entries (apart other d)) h

  pub lease-put_other :
      (lease active : Option String)
      → same active (some id) ≡ false
      → lease_fits lease active entries ≡ true
      → lease_fits lease active (put id n entries) ≡ true
  lease-put_other none active d h = refl
  lease-put_other (some l) none d h = h
  lease-put_other (some l) (some other) d h =
      rw (lookup-put_other id other n entries (apart other d)) h

-- A call that leads from one session to another: the second is sound, a green member is green, and
-- a source that is frozen is left as it is.
pub record Keeps (s t : Session) : Type 0 where
  pub sound : IsSound t
  pub green :
      (id : String)
      → has (λ m. is_green m.status) (lookup s.members id) ≡ true
      → has (λ m. is_green m.status) (lookup t.members id) ≡ true
  pub source :
      is_some s.immutable_source_tip ≡ true
      → (t.immutable_source_tip ≡ s.immutable_source_tip)
        × ((t.ordered_green_commit_prefix ≡ s.ordered_green_commit_prefix)
            × (t.frozen_source ≡ s.frozen_source))

-- A call that stores one member anew.
pub stored-Keeps :
    (s : Session) (id : String) (m n : GroupMember) (active lease : Option String)
    → IsSound s
    → lookup s.members id ≡ some m
    → (is_green m.status ≡ true → is_green n.status ≡ true)
    → fits n ≡ true
    → active_fits active (put id n s.members) ≡ true
    → lease_fits lease active (put id n s.members) ≡ true
    → Keeps s (record s {
      active_member_issue = active;
      active_write_lease_id = lease;
      members = put id n s.members;
    })
stored-Keeps s id m n active lease w old greens new a l = record {
  sound = record {
    header = unfold header_fits in unfold header_fits in w.header;
    members = every-put fits id n s.members w.members new;
    active = a;
    lease = l;
  };
  green = λ other g. has-put (λ x. is_green x.status) id other n m s.members old greens g;
  source = λ f. (refl, (refl, refl));
}
