-- ===== src/Dispatch/Rank/Total/Orders.antt =====
-- Comparators that are total orders up to what they find equal, and their lexicographic product.
use Prim.Native.Nat.{Ordering}
use issue_orchestration.Prelude.{ℕ, ◌≡◌, true, arith}
use issue_orchestration.Dispatch.Rank.{or_else, goes_first, descending, ascending}

abbrev pub flip : Ordering → Ordering
flip Ordering.lt = Ordering.gt
flip Ordering.eq = Ordering.eq
flip Ordering.gt = Ordering.lt

-- What `Array.prototype.sort` asks of a comparator.
pub record IsOrder {ℓ} {A : Type ℓ} (cmp : A → A → Ordering) : Type ℓ where
  pub flipped : (a b : A) → cmp b a ≡ flip (cmp a b)
  pub chained :
      (a b c : A)
      → goes_first (cmp a b) ≡ true
      → goes_first (cmp b c) ≡ true
      → goes_first (cmp a c) ≡ true

or_else_flipped :
    (o o' p p' : Ordering) → o' ≡ flip o → p' ≡ flip p → or_else o' p' ≡ flip (or_else o p)
or_else_flipped o o' p p' e e' = ground arith

module _ {ℓ} {A : Type ℓ} where
  pub by_key-IsOrder : (f : A → ℕ) → IsOrder (λ a b. ascending (f a) (f b))
  by_key-IsOrder f = record { flipped = λ a b. ground arith; chained = λ a b c p q. ground arith }

  pub by_key_down-IsOrder : (f : A → ℕ) → IsOrder (λ a b. descending (f a) (f b))
  by_key_down-IsOrder f = record {
    flipped = λ a b. ground arith;
    chained = λ a b c p q. ground arith;
  }

  pub or_else-IsOrder :
      (f g : A → A → Ordering) → IsOrder f → IsOrder g → IsOrder (λ a b. or_else (f a b) (g a b))
  or_else-IsOrder f g hf hg = record {
    flipped =
        λ a b. or_else_flipped (f a b) (f b a) (g a b) (g b a) (hf.flipped a b) (hg.flipped a b);
    chained = λ a b c p q. ground (
      arith,
      hf.flipped a b,
      hf.flipped b c,
      hf.flipped a c,
      hf.chained a b c,
      hf.chained c a b,
      hf.chained b c a,
      hg.chained a b c,
    );
  }
