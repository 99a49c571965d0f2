-- ===== src/Strings/Tests.antt =====
-- Examples for the string functions.
use skylight.Base.{ℕ, refl, List, [], ◌∷◌, get_or, arith}
use skylight.Strings.{Memory}
use skylight.Strings.Bytes.{IsString}

-- "ab" at 1, "abc" at 11, and zeros elsewhere.
abbrev bytes : List ℕ
bytes = 0 ∷ b'a' ∷ b'b' ∷ 0 ∷ 0 ∷ 0 ∷ 0 ∷ 0 ∷ 0 ∷ 0 ∷ 0 ∷ b'a' ∷ b'b' ∷ b'c' ∷ []

abbrev memory : Memory
memory q = get_or bytes q 0

abbrev ab : List ℕ
ab = b'a' ∷ b'b' ∷ []

abbrev abc : List ℕ
abc = b'a' ∷ b'b' ∷ b'c' ∷ []

ab-IsString : IsString memory 1 ab
ab-IsString = (refl, omega arith, omega arith, (refl, omega arith, omega arith, refl))

abc-IsString : IsString memory 11 abc
abc-IsString = (
  refl,
  omega arith,
  omega arith,
  (refl, omega arith, omega arith, (refl, omega arith, omega arith, refl)),
)

abbrev letters : Memory
letters q = b'a'
