-- ===== src/Prelude/Outcome.antt =====
-- Code that throws: `fail(code)` is `err code`, and `if (test) fail(code)` is `reject test code`.
use mathlib.Core.Path.{◌≡◌, refl}
use mathlib.Core.Bool.{Bool, true, false}

pub data Result (Code Value : Type 0) : Type 0 where
  err : Code → Result Code Value
  ok : Value → Result Code Value

-- The steps after one that may have thrown.
infixl 5 ◌>>=◌
abbrev pub ◌>>=◌ : {C V W : Type 0} → Result C V → (V → Result C W) → Result C W
err code >>= later = err code
ok value >>= later = later value

infixl 5 ◌>>◌
abbrev pub ◌>>◌ : {C V W : Type 0} → Result C V → Result C W → Result C W
first >> later = first >>= λ value. later

abbrev pub reject : {C : Type 0} → Bool → C → Result C (Unit {0})
reject false code = ok tt
reject true code = err code

-- What a successful chain of steps went through.
pub >>=-eq-ok :
    {C V W : Type 0} (first : Result C V) (later : V → Result C W) {b : W}
    → (first >>= later) ≡ ok b
    → (v : V) × (first ≡ ok v) × (later v ≡ ok b)
>>=-eq-ok (err code) later h = cc
>>=-eq-ok (ok value) later h = (value, refl, h)

pub reject-eq-ok :
    {C V : Type 0} (test : Bool) (code : C) (later : Result C V) {b : V}
    → (reject test code >> later) ≡ ok b
    → (test ≡ false) × (later ≡ ok b)
reject-eq-ok false code later h = (refl, h)
reject-eq-ok true code later h = cc
