-- ===== src/Prelude/Members.antt =====
-- `includes`, `filter` and `any` against membership.
use mathlib.Core.Path.{◌≡◌, sym, subst}
use mathlib.Core.Logic.{inl, inr}
use mathlib.Core.Bool.{Bool, true, false}
use mathlib.Core.List.{List, [], ◌∷◌, ◌++◌, Memᴰ}
use native.Mathlib.Omega.{arith}
use Prim.Native.String.{String}
use text.Mathlib.Text.{◌==◌}
use text.Mathlib.TextEquality.{eq_iff}
use issue_orchestration.Prelude.Tests.{Bool-cases}
use issue_orchestration.Prelude.Lists.{filter, any, every, All}
use issue_orchestration.Prelude.Text.{includes, is_distinct}

pub includes-mem : (xs : List String) (a : String) → includes xs a ≡ true → Memᴰ a xs
unfolding includes
includes-mem [] a h = cc
includes-mem (x ∷ xs) a h = elim (Bool-cases (x == a)) [
  | inl e ↦ Memᴰ.head (sym ((eq_iff x a).0 e))
  | inr e ↦ Memᴰ.tail (includes-mem xs a (ground arith))
]

pub mem-includes : (xs : List String) {a : String} → Memᴰ a xs → includes xs a ≡ true
unfolding includes
mem-includes [] m = elim m [ ]
mem-includes (x ∷ xs) {a} (Memᴰ.head e) = ground (arith, eq_iff x a)
mem-includes (x ∷ xs) (Memᴰ.tail m) = ground (arith, mem-includes xs m)

pub not-includes : (xs : List String) {a : String} → includes xs a ≡ false → ¬ (Memᴰ a xs)
not-includes xs h m = cc (mem-includes xs m)

-- No name occurs twice.
abbrev pub Distinct : List String → Type 0
Distinct [] = Unit
Distinct (x ∷ xs) = (¬ (Memᴰ x xs)) × Distinct xs

pub is_distinct-Distinct : (xs : List String) → is_distinct xs ≡ true → Distinct xs
unfolding is_distinct
is_distinct-Distinct [] h = tt
is_distinct-Distinct (x ∷ xs) h =
    (not-includes xs (ground arith), is_distinct-Distinct xs (ground arith))

module _ {ℓ} {A : Type ℓ} where
  pub mem-filter :
      (p : A → Bool) {a : A} (xs : List A) → Memᴰ a xs → p a ≡ true → Memᴰ a (filter p xs)
  unfolding filter
  mem-filter p [] m h = elim m [ ]
  mem-filter p {a} (x ∷ xs) (Memᴰ.head e) h = rw (subst (λ y. p y ≡ true) e h) (Memᴰ.head e)
  mem-filter p (x ∷ xs) (Memᴰ.tail m) h = elim (Bool-cases (p x)) [
    | inl e ↦ rw e (Memᴰ.tail (mem-filter p xs m h))
    | inr e ↦ rw e (mem-filter p xs m h)
  ]

  pub mem-append_left : {a : A} (xs ys : List A) → Memᴰ a xs → Memᴰ a (xs ++ ys)
  mem-append_left [] ys m = elim m [ ]
  mem-append_left (x ∷ xs) ys (Memᴰ.head e) = Memᴰ.head e
  mem-append_left (x ∷ xs) ys (Memᴰ.tail m) = Memᴰ.tail (mem-append_left xs ys m)

  pub mem-append_right : {a : A} (xs ys : List A) → Memᴰ a ys → Memᴰ a (xs ++ ys)
  mem-append_right [] ys m = m
  mem-append_right (x ∷ xs) ys m = Memᴰ.tail (mem-append_right xs ys m)

  pub every-All : (p : A → Bool) (xs : List A) → every p xs ≡ true → All (λ a. p a ≡ true) xs
  unfolding every
  every-All p [] h = tt
  every-All p (x ∷ xs) h = (ground arith, every-All p xs (ground arith))

  pub not-any-All : (p : A → Bool) (xs : List A) → any p xs ≡ false → All (λ a. p a ≡ false) xs
  unfolding any
  not-any-All p [] h = tt
  not-any-All p (x ∷ xs) h = (ground arith, not-any-All p xs (ground arith))

  pub All-map {κ μ} :
      (P : A → Type κ) (Q : A → Type μ) (xs : List A) → ((a : A) → P a → Q a) → All P xs → All Q xs
  All-map P Q [] f h = tt
  All-map P Q (x ∷ xs) f h = (f x h.0, All-map P Q xs f h.1)
