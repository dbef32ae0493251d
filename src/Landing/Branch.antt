-- ===== src/Landing/Branch.antt =====
-- The line of commits that a list of transplants builds, and what it is after one more.
use issue_orchestration.Prelude.{
  ℕ, zero, suc, String, Bool, true, false, some, none, List, [], ◌∷◌, ◌++◌, ◌==◌, ◌≡◌, refl, ap,
  arith, ◌&&◌, ◌||◌, every, includes, is_distinct, length, take, same, is_some, lookup, eq_iff,
  eq_refl, Bool-cases, Option-cases, inl, inr, if◌then◌else◌,
}
use issue_orchestration.Landing.Slice.{TransplantReceipt}
use issue_orchestration.Landing.Log.{Projection}
use issue_orchestration.Landing.Transplant.{index_of, with_entry}

abbrev pub was_applied : TransplantReceipt → Bool
was_applied r = r.body.equivalence_disposition == "already-applied-equivalent"

abbrev pub tip_after_one : String → TransplantReceipt → String
tip_after_one tip r = if was_applied r then tip else r.body.new_commit_sha

-- The tip of the landing branch after some transplants.
unfoldable pub tip_after : String → List TransplantReceipt → String
tip_after tip [] = tip
tip_after tip (r ∷ rs) = tip_after (tip_after_one tip r) rs

-- Each transplant that makes a commit makes it on the tip before it.
unfoldable pub is_linear : String → List TransplantReceipt → Bool
is_linear tip [] = true
is_linear tip (r ∷ rs) =
    (was_applied r || r.body.parent_sha == tip) && is_linear (tip_after_one tip r) rs

unfoldable pub members_of : List TransplantReceipt → List String
members_of [] = []
members_of (r ∷ rs) = r.body.member_issue_id ∷ members_of rs

unfoldable pub sources_of : List TransplantReceipt → List String
sources_of [] = []
sources_of (r ∷ rs) = r.body.source_commit ∷ sources_of rs

abbrev pub is_mapped : List (String × String) → TransplantReceipt → Bool
is_mapped commits r = same (lookup commits r.body.source_commit) (some r.body.new_commit_sha)

-- The transplants of an attempt: they are those of the first members, in their order, each of
-- another source commit, which is mapped to the commit it became. The commits form one line on the
-- remote head, up to the current tip.
pub record IsLinear {Value : Type 0} (p : Projection Value) : Type 0 where
  pub order :
      members_of p.transplant_operations
      ≡ take (length p.transplant_operations) p.source_member_order
  pub sources : is_distinct (sources_of p.transplant_operations) ≡ true
  pub commits : every (is_mapped p.old_to_new_commit_sha_map) p.transplant_operations ≡ true
  pub line : is_linear p.latest_remote_head p.transplant_operations ≡ true
  pub tip : p.current_landing_tip ≡ tip_after p.latest_remote_head p.transplant_operations

pub tip-append :
    (tip : String) (rs : List TransplantReceipt) (r : TransplantReceipt)
    → tip_after tip (rs ++ r ∷ []) ≡ tip_after_one (tip_after tip rs) r
unfolding tip_after
tip-append tip [] r = refl
tip-append tip (s ∷ rs) r = tip-append (tip_after_one tip s) rs r

pub line-append :
    (tip : String) (rs : List TransplantReceipt) (r : TransplantReceipt)
    → is_linear tip rs ≡ true
    → (was_applied r || r.body.parent_sha == tip_after tip rs) ≡ true
    → is_linear tip (rs ++ r ∷ []) ≡ true
unfolding is_linear tip_after
line-append tip [] r h e = ground (arith, e)
line-append tip (s ∷ rs) r h e =
    ground (arith, h, line-append (tip_after_one tip s) rs r (ground (arith, h)) e)

pub members-append :
    (rs : List TransplantReceipt) (r : TransplantReceipt)
    → members_of (rs ++ r ∷ []) ≡ members_of rs ++ r.body.member_issue_id ∷ []
unfolding members_of
members-append [] r = refl
members-append (s ∷ rs) r = ap (λ x. s.body.member_issue_id ∷ x) (members-append rs r)

pub sources-append :
    (rs : List TransplantReceipt) (r : TransplantReceipt)
    → sources_of (rs ++ r ∷ []) ≡ sources_of rs ++ r.body.source_commit ∷ []
unfolding sources_of
sources-append [] r = refl
sources-append (s ∷ rs) r = ap (λ x. s.body.source_commit ∷ x) (sources-append rs r)

pub length-end :
    (rs : List TransplantReceipt) (r : TransplantReceipt) → length (rs ++ r ∷ []) ≡ suc (length rs)
length-end [] r = refl
length-end (s ∷ rs) r = ap suc (length-end rs r)

pub take-index :
    (order : List String) (id : String) (n : ℕ)
    → index_of order id ≡ some n
    → take (suc n) order ≡ take n order ++ id ∷ []
unfolding index_of take
take-index [] id n h = cc
take-index (x ∷ order) id zero h = elim (Bool-cases (x == id)) [
  | inl e ↦ ap (λ y. y ∷ []) ((eq_iff x id).0 e)
  | inr e ↦ elim (Option-cases (index_of order id)) [
    | inl o ↦ absurd (ground (arith, h, e, o))
    | inr (m, o) ↦ absurd (ground (arith, h, e, o))
  ]
]
take-index (x ∷ order) id (suc n) h = elim (Bool-cases (x == id)) [
  | inl e ↦ absurd (ground (arith, h, e))
  | inr e ↦ elim (Option-cases (index_of order id)) [
    | inl o ↦ absurd (ground (arith, h, e, o))
    | inr (m, o) ↦ ap (λ y. x ∷ y) (take-index order id n (ground (arith, h, e, o)))
  ]
]

pub includes-end :
    (xs : List String) (k x : String) → includes (xs ++ k ∷ []) x ≡ (includes xs x || k == x)
unfolding includes
includes-end [] k x = ground arith
includes-end (y ∷ xs) k x = ground (arith, includes-end xs k x)

pub distinct-end :
    (xs : List String) (k : String)
    → is_distinct xs ≡ true
    → includes xs k ≡ false
    → is_distinct (xs ++ k ∷ []) ≡ true
unfolding is_distinct includes
distinct-end [] k d f = refl
distinct-end (x ∷ xs) k d f =
    ground (arith, d, f, distinct-end xs k, includes-end xs k x, eq_iff k x, eq_iff x k)

pub fresh-source :
    (commits : List (String × String)) (rs : List TransplantReceipt) (k : String)
    → every (is_mapped commits) rs ≡ true
    → is_some (lookup commits k) ≡ false
    → includes (sources_of rs) k ≡ false
unfolding every sources_of includes same
fresh-source commits [] k h f = refl
fresh-source commits (r ∷ rs) k h f =
    ground (arith, h, f, fresh-source commits rs k, eq_iff r.body.source_commit k)

pub lookup-end :
    (es : List (String × String)) (k a x : String)
    → lookup (es ++ (k, a) ∷ []) x
      ≡ (if is_some (lookup es x) then lookup es x else (if k == x then some a else none))
unfolding lookup
lookup-end [] k a x = refl
lookup-end ((j, b) ∷ es) k a x = ground (arith, lookup-end es k a x)

pub lookup-new :
    (commits : List (String × String)) (k a x : String)
    → is_some (lookup commits k) ≡ false
    → lookup (with_entry k a commits) x
      ≡ (if is_some (lookup commits x) then lookup commits x else (if k == x then some a else none))
unfolding with_entry
lookup-new commits k a x f = rw f (lookup-end commits k a x)

pub still-mapped :
    (commits : List (String × String)) (k a : String) (rs : List TransplantReceipt)
    → is_some (lookup commits k) ≡ false
    → every (is_mapped commits) rs ≡ true
    → every (is_mapped (with_entry k a commits)) rs ≡ true
unfolding every same
still-mapped commits k a [] f h = refl
still-mapped commits k a (r ∷ rs) f h = elim (Option-cases (lookup commits r.body.source_commit)) [
  | inl e ↦ absurd (ground (arith, h, e))
  | inr (c, e) ↦ ground (
    arith,
    h,
    e,
    lookup-new commits k a r.body.source_commit f,
    still-mapped commits k a rs f (ground (arith, h)),
  )
]

pub new-mapped :
    (commits : List (String × String)) (k a : String)
    → is_some (lookup commits k) ≡ false
    → same (lookup (with_entry k a commits) k) (some a) ≡ true
unfolding same
new-mapped commits k a f = ground (arith, f, lookup-new commits k a k f, eq_refl k, eq_refl a)

pub every-end :
    (p : TransplantReceipt → Bool) (rs : List TransplantReceipt) (r : TransplantReceipt)
    → every p rs ≡ true
    → p r ≡ true
    → every p (rs ++ r ∷ []) ≡ true
unfolding every
every-end p [] r h e = ground (arith, e)
every-end p (s ∷ rs) r h e = ground (arith, h, every-end p rs r)
