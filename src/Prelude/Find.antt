-- ===== src/Prelude/Find.antt =====
-- What `find` returns passes the test.
use mathlib.Core.Path.{◌≡◌}
use mathlib.Core.Bool.{Bool, true}
use mathlib.Core.Option.{some}
use mathlib.Core.List.{List, [], ◌∷◌}
use native.Mathlib.Omega.{arith}
use issue_orchestration.Prelude.Lists.{find}

pub find-eq-some {ℓ} :
    {A : Type ℓ} (p : A → Bool) (xs : List A) (a : A) → find p xs ≡ some a → p a ≡ true
unfolding find
find-eq-some p [] a h = cc
find-eq-some p (x ∷ xs) a h = ground (arith, find-eq-some p xs a)
