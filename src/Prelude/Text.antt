-- ===== src/Prelude/Text.antt =====
-- Texts: what the source writes as regular expressions, `includes`, `Set` and `startsWith`.
use Prim.Native.Nat.{ℕ, suc}
use Prim.Native.Char.{code}
use Prim.Native.String.{String}
use mathlib.Core.Path.{◌≡◌, refl}
use mathlib.Core.Bool.{Bool, true, false, not, ◌&&◌, ◌||◌}
use mathlib.Core.Option.{Option, none, some}
use mathlib.Core.List.{List, [], ◌∷◌}
use native.Mathlib.Omega.{arith}
use issue_orchestration.Prelude.Tests.{leb, eqb, if◌then◌else◌}
pub use text.Mathlib.Text.{◌==◌}
pub use text.Mathlib.TextEquality.{eq_iff}
pub use text.Mathlib.TextPositions.{eq_refl}

-- `typeof value === 'string' && value.length > 0`, of a value that may be missing.
unfoldable pub is_text : Option String → Bool
is_text none = false
is_text (some s) = not (s == "")

-- [a-f0-9]
is_lower_hex : ℕ → Bool
is_lower_hex c = (leb b'0' c && leb c b'9') || (leb b'a' c && leb c b'f')

-- /^[a-f0-9]{n}$/u
hex_run : ℕ → String → Bool
unfolding is_lower_hex
hex_run n String.[] = eqb n 0
hex_run ℕ.zero (String.◌∷◌ c s) = false
hex_run (suc n) (String.◌∷◌ c s) = is_lower_hex (code c) && hex_run n s

-- HASH.test(value ?? '') and SHA.test(value ?? '')
unfoldable pub is_hash : Option String → Bool
unfolding hex_run
is_hash none = false
is_hash (some s) = hex_run 64 s

unfoldable pub is_sha : Option String → Bool
unfolding hex_run
is_sha none = false
is_sha (some s) = hex_run 40 s

-- left === right of two values that may be missing.
unfoldable pub same : Option String → Option String → Bool
same none none = true
same none (some b) = false
same (some a) none = false
same (some a) (some b) = a == b

pub same-eq : (a b : Option String) → same a b ≡ true → a ≡ b
unfolding same
same-eq none none h = refl
same-eq none (some b) h = cc
same-eq (some a) none h = cc
same-eq (some a) (some b) h = ground (arith, eq_iff a b)

-- xs.includes(a), and new Set(xs).has(a)
unfoldable pub includes : List String → String → Bool
includes [] a = false
includes (x ∷ xs) a = x == a || includes xs a

-- new Set(xs).size === xs.length
unfoldable pub is_distinct : List String → Bool
unfolding includes
is_distinct [] = true
is_distinct (x ∷ xs) = not (includes xs x) && is_distinct xs

-- A run of sixty-four zeros, a well-formed digest.
abbrev pub zero_hash : String
zero_hash = "0000000000000000000000000000000000000000000000000000000000000000"

pub zero_hash-is_hash : is_hash (some zero_hash) ≡ true
unfolding is_hash
zero_hash-is_hash = refl

short-not-is_hash : is_hash (some "00") ≡ false
unfolding is_hash
short-not-is_hash = refl

-- The code points of a text.
unfoldable pub codes : String → List ℕ
codes String.[] = []
codes (String.◌∷◌ c s) = code c ∷ codes s

-- text.startsWith(prefix), on code points
unfoldable pub starts_with : List ℕ → List ℕ → Bool
starts_with s [] = true
starts_with [] (p ∷ ps) = false
starts_with (c ∷ s) (p ∷ ps) = eqb c p && starts_with s ps

-- text.includes(part), on code points
unfoldable pub has_part : List ℕ → List ℕ → Bool
unfolding starts_with
has_part [] part = starts_with [] part
has_part (c ∷ s) part = starts_with (c ∷ s) part || has_part s part

-- left === right, on code points
unfoldable pub same_codes : List ℕ → List ℕ → Bool
same_codes [] [] = true
same_codes (c ∷ s) (d ∷ t) = eqb c d && same_codes s t
same_codes _ _ = false

-- What stands before and after the last occurrence of a character.
unfoldable pub split_last : ℕ → List ℕ → Option (List ℕ × List ℕ)
split_last c [] = none
split_last c (x ∷ xs) = elim (split_last c xs) [
  | some (before, behind) ↦ some (x ∷ before, behind)
  | none ↦ if eqb x c then some ([], xs) else none
]

-- [0-9]
abbrev pub is_digit : ℕ → Bool
is_digit c = leb b'0' c && leb c b'9'

-- The characters that `trim` takes away.
unfoldable pub is_space : ℕ → Bool
is_space c =
    (leb 9 c && leb c 13)
    || eqb c 32
    || eqb c 160
    || eqb c 0x1680
    || (leb 0x2000 c && leb c 0x200a)
    || eqb c 0x2028
    || eqb c 0x2029
    || eqb c 0x202f
    || eqb c 0x205f
    || eqb c 0x3000
    || eqb c 0xfeff

-- value.trim().length > 0
unfoldable pub is_printed : String → Bool
unfolding is_space
is_printed String.[] = false
is_printed (String.◌∷◌ c s) = not (is_space (code c)) || is_printed s
