-- ===== src/Base/Equal.antt =====
-- Equality of lists of numbers, as a test.
use Prim.Native.Nat.{ℕ}
use mathlib.Core.Path.{◌≡◌}
use mathlib.Core.Logic.{◌≢◌, ◌↔◌, inl, inr}
use mathlib.Core.Bool.{Bool, true, false, ◌&&◌}
use mathlib.Core.List.{List, [], ◌∷◌}
use native.Mathlib.Omega.{arith}
use package.skylight.Base.Tests.{◌==◌, Bool-cases}

abbrev pub equal : List ℕ → List ℕ → Bool
equal [] [] = true
equal [] (y ∷ ys) = false
equal (x ∷ xs) [] = false
equal (x ∷ xs) (y ∷ ys) = let rest = equal xs ys in (x == y) && rest

pub equal_iff : (xs ys : List ℕ) → (equal xs ys ≡ true) ↔ (xs ≡ ys)
equal_iff (x ∷ xs) (y ∷ ys) = ground (arith, equal_iff xs ys)
equal_iff _ _ = ground arith

pub equal_ne : (xs ys : List ℕ) → xs ≢ ys → equal xs ys ≡ false
equal_ne xs ys ne = elim (Bool-cases (equal xs ys)) [
  | inl e ↦ absurd (ne ((equal_iff xs ys).0 e))
  | inr e ↦ e
]
