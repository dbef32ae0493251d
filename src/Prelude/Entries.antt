-- ===== src/Prelude/Entries.antt =====
-- Objects and `Map`s with text keys, as lists of entries: `entries[key]`, and an assignment to a key.
use Prim.Native.String.{String}
use mathlib.Core.Path.{◌≡◌, refl, sym, subst}
use mathlib.Core.Logic.{inl, inr}
use mathlib.Core.Bool.{Bool, true, false}
use mathlib.Core.Option.{Option, none, some}
use mathlib.Core.List.{List, [], ◌∷◌}
use native.Mathlib.Omega.{arith}
use text.Mathlib.Text.{◌==◌}
use text.Mathlib.TextEquality.{eq_iff}
use issue_orchestration.Prelude.Tests.{if◌then◌else◌, Bool-cases}
use issue_orchestration.Prelude.Lists.{every}

module _ {ℓ} {A : Type ℓ} where
  -- entries[key]
  unfoldable pub lookup : List (String × A) → String → Option A
  lookup [] key = none
  lookup ((k, a) ∷ entries) key = if k == key then some a else lookup entries key

  -- entries[key] = a, of a key that is there
  unfoldable pub put : String → A → List (String × A) → List (String × A)
  put key a [] = []
  put key a ((k, b) ∷ entries) =
      let rest = put key a entries in if k == key then (k, a) ∷ entries else (k, b) ∷ rest

  pub lookup-put_same :
      (key : String) (a b : A) (entries : List (String × A))
      → lookup entries key ≡ some b
      → lookup (put key a entries) key ≡ some a
  unfolding lookup put
  lookup-put_same key a b [] h = cc
  lookup-put_same key a b ((k, c) ∷ entries) h = ground (arith, lookup-put_same key a b entries)

  pub lookup-put_other :
      (key other : String) (a : A) (entries : List (String × A))
      → (key == other) ≡ false
      → lookup (put key a entries) other ≡ lookup entries other
  unfolding lookup put
  lookup-put_other key other a [] d = refl
  lookup-put_other key other a ((k, b) ∷ entries) d = ground (
    arith,
    lookup-put_other key other a entries d,
    eq_iff k key,
    eq_iff k other,
    eq_iff key other,
  )

  -- What every value has, one of them has, and has it after a value that has it is put in.
  pub every-lookup :
      (p : A → Bool) (key : String) (a : A) (entries : List (String × A))
      → every (λ e. p e.1) entries ≡ true
      → lookup entries key ≡ some a
      → p a ≡ true
  unfolding lookup every
  every-lookup p key a [] h e = cc
  every-lookup p key a ((k, b) ∷ entries) h e = elim (Bool-cases (k == key)) [
    | inl t ↦ ground (arith, t)
    | inr t ↦ every-lookup p key a entries (ground arith) (ground (arith, t))
  ]

  pub every-put :
      (p : A → Bool) (key : String) (a : A) (entries : List (String × A))
      → every (λ e. p e.1) entries ≡ true
      → p a ≡ true
      → every (λ e. p e.1) (put key a entries) ≡ true
  unfolding every put
  every-put p key a [] h new = refl
  every-put p key a ((k, b) ∷ entries) h new = elim (Bool-cases (k == key)) [
    | inl t ↦ ground (arith, t)
    | inr t ↦ let rest = every-put p key a entries (ground arith) new in ground (arith, t, rest)
  ]

  abbrev pub has : (A → Bool) → Option A → Bool
  has p none = false
  has p (some a) = p a

  -- What the value at a key has, the value at that key has after a put that keeps it.
  pub has-put :
      (p : A → Bool) (key other : String) (a b : A) (entries : List (String × A))
      → lookup entries key ≡ some b
      → (p b ≡ true → p a ≡ true)
      → has p (lookup entries other) ≡ true
      → has p (lookup (put key a entries) other) ≡ true
  has-put p key other a b entries old keeps h = elim (Bool-cases (key == other)) [
    | inl t ↦
        let e : key ≡ other = (eq_iff key other).0 t in
        rw (sym e) (
          rw (lookup-put_same key a b entries old) (
            keeps (
              subst (λ o. has p o ≡ true) old
                (subst (λ k. has p (lookup entries k) ≡ true) (sym e) h))))
    | inr t ↦ rw (lookup-put_other key other a entries t) h
  ]
