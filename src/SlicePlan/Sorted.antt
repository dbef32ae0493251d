-- ===== src/SlicePlan/Sorted.antt =====
-- Sorting and the removal of repetitions keep what a list has.
use issue_orchestration.Prelude.{
  String, true, List, [], ◌∷◌, ◌==◌, ◌≡◌, refl, arith, not, ◌&&◌, ◌||◌, ◌∙◌, filter, includes,
  eq_iff, ap₂,
}
use issue_orchestration.SlicePlan.Plan.{insert_text, sorted, unique, unique_sorted, same_value}

pub same_value-eq : (xs ys : List String) → same_value xs ys ≡ true → xs ≡ ys
unfolding same_value
same_value-eq [] [] h = refl
same_value-eq [] (y ∷ ys) h = cc
same_value-eq (x ∷ xs) [] h = cc
same_value-eq (x ∷ xs) (y ∷ ys) h =
    ap₂ (λ z zs. z ∷ zs) ((eq_iff x y).0 (ground (arith, h)))
      (same_value-eq xs ys (ground (arith, h)))

module _ (a : String) where
  includes-insert_text :
      (x : String) (xs : List String) → includes (insert_text x xs) a ≡ (x == a || includes xs a)
  unfolding insert_text includes
  includes-insert_text x [] = refl
  includes-insert_text x (y ∷ ys) = ground (arith, includes-insert_text x ys)

  pub includes-sorted : (xs : List String) → includes (sorted xs) a ≡ includes xs a
  unfolding sorted includes
  includes-sorted [] = refl
  includes-sorted (x ∷ xs) = ground (arith, includes-insert_text x (sorted xs), includes-sorted xs)

  includes-filter :
      (x : String) (xs : List String)
      → includes (filter (λ y. not (x == y)) xs) a ≡ (includes xs a && not (x == a))
  unfolding filter includes
  includes-filter x [] = refl
  includes-filter x (y ∷ ys) =
      ground (arith, includes-filter x ys, eq_iff x y, eq_iff x a, eq_iff y a)

  pub includes-unique : (xs : List String) → includes (unique xs) a ≡ includes xs a
  unfolding unique includes
  includes-unique [] = refl
  includes-unique (x ∷ xs) = ground (arith, includes-filter x (unique xs), includes-unique xs)

  pub includes-unique_sorted : (xs : List String) → includes (unique_sorted xs) a ≡ includes xs a
  unfolding unique_sorted
  includes-unique_sorted xs = includes-sorted (unique xs) ∙ includes-unique xs
