-- ===== src/Dispatch/Lease/Exclusive.antt =====
-- No two active leases hold the same key, however leases are acquired, released and recovered.
use issue_orchestration.Prelude.{
  ℕ, String, ◌≡◌, sym, subst, true, Option, List, [], ◌∷◌, ◌++◌, ◌==◌, Memᴰ, arith, All, All-map,
  mem-includes, mem-filter, ok, >>=-eq-ok, includes, filter,
}
use issue_orchestration.Dispatch.Lease.{
  Body, Lease, Request, RecoveryEvidence, is_empty, overlap, validate_lease, check_free,
  acquired_body, sealed, acquire_dispatch_lease, release_dispatch_lease,
  recover_expired_dispatch_lease,
}

abbrev pub IsActive : Lease → Type 0
IsActive l = (l.state == "active") ≡ true

abbrev pub Apart : Lease → Lease → Type 0
Apart l m = IsActive l → IsActive m → (key : String) → Memᴰ key l.keys → ¬ (Memᴰ key m.keys)

-- No key is held twice.
abbrev pub Exclusive : List Lease → Type 0
Exclusive [] = Unit
Exclusive (l ∷ leases) = All (Apart l) leases × Exclusive leases

not-mem_of_is_empty : {a : String} (xs : List String) → is_empty xs ≡ true → ¬ (Memᴰ a xs)
not-mem_of_is_empty [] h m = elim m [ ]
not-mem_of_is_empty (x ∷ xs) h m = cc

no_overlap :
    (left right : List String) (key : String)
    → is_empty (overlap left right) ≡ true
    → Memᴰ key left
    → ¬ (Memᴰ key right)
unfolding overlap
no_overlap left right key h l r =
    not-mem_of_is_empty (filter (includes right) left) h
      (mem-filter (includes right) left l (mem-includes right r))

module _ (digest : Body → String) (date_parse : String → Option ℕ) where
  check_free_clear :
      (leases : List Lease) (r : Request)
      → check_free digest date_parse leases r ≡ ok tt
      → All (λ l. IsActive l → (key : String) → Memᴰ key l.keys → ¬ (Memᴰ key r.keys)) leases
  unfolding check_free
  check_free_clear [] r h = tt
  check_free_clear (l ∷ leases) r h =
      let (v, valid, rest) = >>=-eq-ok (validate_lease digest l) _ h in
      (
        λ active key. no_overlap l.keys r.keys key (ground arith),
        check_free_clear leases r (ground arith),
      )

  -- A lease that is acquired is active, holds the keys that were asked for, and shares none of
  -- them with an active lease.
  acquired_clear :
      (leases : List Lease) (r : Request) (l : Lease)
      → acquire_dispatch_lease digest date_parse leases r ≡ ok l
      → (l ≡ sealed digest (acquired_body r))
        × All (λ m. IsActive m → (key : String) → Memᴰ key m.keys → ¬ (Memᴰ key l.keys)) leases
  unfolding acquire_dispatch_lease validate_lease
  acquired_clear leases r l h =
      let e : l ≡ sealed digest (acquired_body r) = ground arith in
      (e, rw e (check_free_clear leases r (ground arith)))

  recovered_inactive :
      (l l' : Lease) (recovered_at : String) (evidence : RecoveryEvidence)
      → recover_expired_dispatch_lease digest date_parse l recovered_at evidence ≡ ok l'
      → ¬ (IsActive l')
  unfolding recover_expired_dispatch_lease validate_lease
  recovered_inactive l l' recovered_at evidence h a =
      let e : l'.state ≡ "recovered" = ground arith in cc (subst (λ s. (s == "active") ≡ true) e a)

module _ (digest : Body → String) where
  released_inactive :
      (l l' : Lease) (attempt released_at : String)
      → release_dispatch_lease digest l attempt released_at ≡ ok l'
      → ¬ (IsActive l')
  unfolding release_dispatch_lease validate_lease
  released_inactive l l' attempt released_at h a =
      let e : l'.state ≡ "released" = ground arith in cc (subst (λ s. (s == "active") ≡ true) e a)

-- What one dispatch operation makes of the leases of a run.
pub data Step (digest : Body → String) (date_parse : String → Option ℕ) (from to : List Lease)
    : Type 0 where
  acquire :
      (r : Request) (l : Lease)
      → acquire_dispatch_lease digest date_parse from r ≡ ok l
      → to ≡ l ∷ from
      → Step digest date_parse from to
  release :
      (before behind : List Lease) (l l' : Lease) (attempt released_at : String)
      → release_dispatch_lease digest l attempt released_at ≡ ok l'
      → from ≡ before ++ (l ∷ behind)
      → to ≡ before ++ (l' ∷ behind)
      → Step digest date_parse from to
  recover :
      (before behind : List Lease) (l l' : Lease) (recovered_at : String)
      (evidence : RecoveryEvidence)
      → recover_expired_dispatch_lease digest date_parse l recovered_at evidence ≡ ok l'
      → from ≡ before ++ (l ∷ behind)
      → to ≡ before ++ (l' ∷ behind)
      → Step digest date_parse from to

-- A lease that is not active may stand for any other.
Apart-replace :
    (k l l' : Lease) (before behind : List Lease)
    → ¬ (IsActive l')
    → All (Apart k) (before ++ (l ∷ behind))
    → All (Apart k) (before ++ (l' ∷ behind))
Apart-replace k l l' [] behind dead h = (λ a b. absurd (dead b), h.1)
Apart-replace k l l' (m ∷ before) behind dead h = (h.0, Apart-replace k l l' before behind dead h.1)

Exclusive-replace :
    (l l' : Lease) (before behind : List Lease)
    → ¬ (IsActive l')
    → Exclusive (before ++ (l ∷ behind))
    → Exclusive (before ++ (l' ∷ behind))
Exclusive-replace l l' [] behind dead h =
    (All-map (Apart l) (Apart l') behind (λ m p a. absurd (dead a)) h.0, h.1)
Exclusive-replace l l' (m ∷ before) behind dead h =
    (Apart-replace m l l' before behind dead h.0, Exclusive-replace l l' before behind dead h.1)

-- Acquiring, releasing and recovering leases keeps it so that no key is held by two active leases.
pub Step-Exclusive :
    (digest : Body → String) (date_parse : String → Option ℕ) (from to : List Lease)
    → Step digest date_parse from to
    → Exclusive from
    → Exclusive to
Step-Exclusive digest date_parse from to (acquire r l granted e) x = subst Exclusive (sym e) (
  All-map _ (Apart l) from (λ m clear a b key k k'. clear b key k' k)
      (acquired_clear digest date_parse from r l granted).1,
  x,
)
Step-Exclusive digest date_parse from to (release before behind l l' attempt at done e e') x =
    subst Exclusive (sym e') (
      Exclusive-replace l l' before behind (released_inactive digest l l' attempt at done)
        (subst Exclusive e x))
Step-Exclusive digest date_parse from to (recover before behind l l' at evidence done e e') x =
    subst Exclusive (sym e') (
      Exclusive-replace l l' before behind
        (recovered_inactive digest date_parse l l' at evidence done) (subst Exclusive e x))
