-- ===== src/Dispatch/Lease/Exact.antt =====
-- When a lease is granted.
use issue_orchestration.Prelude.{
  ℕ, String, ◌≡◌, ◌↔◌, refl, true, Option, List, [], ◌∷◌, ◌==◌, arith, All, ok, >>=-eq-ok,
}
use issue_orchestration.Dispatch.Lease.{
  Body, Lease, Request, is_empty, overlap, validate_lease, check_free, acquired_body, sealed,
  acquire_dispatch_lease,
}

module _ (digest : Body → String) (date_parse : String → Option ℕ) where
  -- The lease is valid, and if it is active it holds no key that is asked for.
  abbrev pub Yields : Request → Lease → Type 0
  Yields r l =
      (validate_lease digest l ≡ ok l)
      × ((l.state == "active") ≡ true → is_empty (overlap l.keys r.keys) ≡ true)

  check_free-Yields :
      (leases : List Lease) (r : Request)
      → check_free digest date_parse leases r ≡ ok tt
      → All (Yields r) leases
  unfolding check_free validate_lease
  check_free-Yields [] r h = tt
  check_free-Yields (l ∷ leases) r h =
      ((ground arith, λ a. ground arith), check_free-Yields leases r (ground arith))

  Yields-check_free :
      (leases : List Lease) (r : Request)
      → All (Yields r) leases
      → check_free digest date_parse leases r ≡ ok tt
  unfolding check_free
  Yields-check_free [] r h = refl
  Yields-check_free (l ∷ leases) r h = ground (arith, Yields-check_free leases r h.1)

  -- A request is granted exactly when each lease that exists is valid and, if active, holds none
  -- of the keys that are asked for, and the new lease is valid; what is granted is the request,
  -- sealed. An expired lease that is still active refuses it too.
  pub acquire_exact :
      (leases : List Lease) (r : Request)
      → (acquire_dispatch_lease digest date_parse leases r ≡ ok (sealed digest (acquired_body r)))
        ↔ (All (Yields r) leases
            × (validate_lease digest (sealed digest (acquired_body r))
                ≡ ok (sealed digest (acquired_body r))))
  unfolding acquire_dispatch_lease
  acquire_exact leases r = (
    λ h.
        let (u, free, valid) = >>=-eq-ok (check_free digest date_parse leases r) _ h in
        (check_free-Yields leases r free, valid),
    λ h. rw (Yields-check_free leases r h.0) h.1,
  )
