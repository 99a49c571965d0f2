-- ===== src/Strings/Compare.antt =====
-- `strcmp`, `memcmp` and `strncmp` of kernel/src/extra/std.
use skylight.Base.{
  ℕ, zero, suc, ◌<◌, ◌≡◌, ◌≢◌, ◌↔◌, ◌∙◌, refl, ap, sym, inl, inr, Bool, true, false, ◌&&◌, List, [],
  ◌∷◌, Option, some, ◌==◌, ==_of_ne, ==_of_eq, if◌then◌else◌, length, arith, eq_or_ne, get_or,
}
use mathlib.Core.Bool.{false≢true}
use skylight.Strings.{Memory, int_of, difference, strcmp, memcmp, strncmp}
use skylight.Strings.Bytes.{IsString}

abbrev pub is_prefix : List ℕ → List ℕ → Bool
is_prefix [] ys = true
is_prefix (x ∷ xs) [] = false
is_prefix (x ∷ xs) (y ∷ ys) = let rest = is_prefix xs ys in (x == y) && rest

difference_ne : (a b : ℕ) → a < 256 → b < 256 → a ≢ b → (difference a b == 0) ≡ false
difference_ne a b low high ne = ground arith

int_of_ne : (a : ℕ) → 0 < a → (int_of a == 0) ≡ false
int_of_ne a pos = ground arith

-- What a comparison that returns `run` tells of two strings.
abbrev pub Tells : Option ℕ → List ℕ → List ℕ → Type 0
Tells run xs ys = (r : ℕ) × (run ≡ some r) × ((r == 0) ≡ is_prefix xs ys)

-- The end of a round in which the characters were the same.
same_round :
    (m : Memory) (p q : ℕ) (xs ys : List ℕ) (rest : Option ℕ)
    → IsString m p xs
    → IsString m q ys
    → Tells rest xs ys
    → Tells (if m q == 0 then some (int_of (m p)) else rest) xs ys
same_round m p q [] [] rest i j t = (int_of (m p), rw (==_of_eq (m q) 0 j), rw i refl)
same_round m p q (x ∷ xs) [] rest (here, pos, _, _) j t =
    (int_of (m p), rw (==_of_eq (m q) 0 j), int_of_ne (m p) (omega arith))
same_round m p q xs (y ∷ ys) rest i (there, pos, _, _) (r, run, told) =
    (r, rw (==_of_ne (m q) 0 (omega arith)) run, told)

-- With more rounds than the first string has characters, `strcmp` of two strings in memory
-- returns, and it returns 0 exactly where the first string is a prefix of the second.
pub strcmp_lem :
    (rounds : ℕ) (m : Memory) (s1 s2 : ℕ) (xs ys : List ℕ)
    → IsString m s1 xs
    → IsString m s2 ys
    → length xs < rounds
    → Tells (strcmp rounds m s1 s2) xs ys
unfolding strcmp
strcmp_lem zero m s1 s2 xs ys i j few = absurd (omega arith)
strcmp_lem (suc rounds) m s1 s2 [] ys i j few = (0, rw (==_of_eq (m s1) 0 i), refl)
strcmp_lem (suc rounds) m s1 s2 (x ∷ xs) [] (here, pos, byte, rest) j few = (
  difference (m s1) (m s2),
  rw (==_of_ne (m s1) 0 (omega arith), ==_of_ne (m s1) (m s2) (omega arith)),
  difference_ne (m s1) (m s2) (omega arith) (omega arith) (omega arith),
)
strcmp_lem (suc rounds) m s1 s2 (x ∷ xs) (y ∷ ys) (here, pos, byte, rest)
      (there, pos2, byte2, rest2) few =
    elim (eq_or_ne x y) [
      | inl same ↦
          let (r, run, told) =
            same_round m (suc s1) (suc s2) xs ys _ rest rest2
              (strcmp_lem rounds m (suc s1) (suc s2) xs ys rest rest2 (omega arith)) in
          (
            r,
            rw (==_of_ne (m s1) 0 (omega arith), ==_of_eq (m s1) (m s2) (omega arith)) run,
            rw (==_of_eq x y same) told,
          )
      | inr other ↦
          let differ : m s1 ≢ m s2 = omega arith in
          (
            difference (m s1) (m s2),
            rw (==_of_ne (m s1) 0 (omega arith), ==_of_ne (m s1) (m s2) differ),
            rw (==_of_ne x y other)
                (difference_ne (m s1) (m s2) (omega (arith, there, byte2)) (omega arith) differ),
          )
    ]

abbrev pub bytes_at : Memory → (p n : ℕ) → List ℕ
bytes_at m p zero = []
bytes_at m p (suc n) = m p ∷ bytes_at m (suc p) n

rest_of : List ℕ → List ℕ
rest_of [] = []
rest_of (x ∷ xs) = xs

module _ (m : Memory) (s1 s2 n : ℕ) where
  memcmp-same : m s1 ≡ m s2 → memcmp m s1 s2 (suc n) ≡ memcmp m (suc s1) (suc s2) n
  unfolding memcmp
  memcmp-same e = rw (==_of_eq (m s1) (m s2) e)

  memcmp-differ : m s1 ≢ m s2 → memcmp m s1 s2 (suc n) ≡ difference (m s1) (m s2)
  unfolding memcmp
  memcmp-differ ne = rw (==_of_ne (m s1) (m s2) ne)

memcmp-bytes_at :
    (m : Memory) (s1 s2 n : ℕ)
    → ((q : ℕ) → m q < 256)
    → (memcmp m s1 s2 n ≡ 0) ↔ (bytes_at m s1 n ≡ bytes_at m s2 n)
unfolding memcmp rest_of
memcmp-bytes_at m s1 s2 zero bytes = (λ e. refl, λ e. refl)
memcmp-bytes_at m s1 s2 (suc n) bytes =
    let rest = memcmp-bytes_at m (suc s1) (suc s2) n bytes in
    elim (eq_or_ne (m s1) (m s2)) [
      | inl same ↦ (
        λ z.
            ap (λ c. c ∷ bytes_at m (suc s1) n) same
            ∙ ap (λ l. m s2 ∷ l) (rest.0 (sym (memcmp-same m s1 s2 n same) ∙ z)),
        λ l. memcmp-same m s1 s2 n same ∙ rest.1 (ap rest_of l),
      )
      | inr other ↦
          let nonzero = difference_ne (m s1) (m s2) (bytes s1) (bytes s2) other in
          (
            λ z.
                absurd (
                  false≢true
                    (sym nonzero ∙ ==_of_eq _ 0 (sym (memcmp-differ m s1 s2 n other) ∙ z))),
            λ l. absurd (other (ap (λ k. get_or k 0 0) l)),
          )
    ]

strncmp-memcmp : (m : Memory) (s1 s2 n : ℕ) → strncmp m s1 s2 n ≡ memcmp m s1 s2 n
unfolding strncmp memcmp
strncmp-memcmp m s1 s2 zero = refl
strncmp-memcmp m s1 s2 (suc n) = rw (strncmp-memcmp m (suc s1) (suc s2) n)

-- In a memory of bytes, `memcmp` and `strncmp` of two addresses return 0 exactly where the `n`
-- bytes at the one are those at the other, also behind the end of a string.
pub comparison_lem :
    (m : Memory) (s1 s2 n : ℕ)
    → ((q : ℕ) → m q < 256)
    → ((memcmp m s1 s2 n ≡ 0) ↔ (bytes_at m s1 n ≡ bytes_at m s2 n))
      × ((strncmp m s1 s2 n ≡ 0) ↔ (bytes_at m s1 n ≡ bytes_at m s2 n))
comparison_lem m s1 s2 n bytes =
    let same = memcmp-bytes_at m s1 s2 n bytes in (same, rw (strncmp-memcmp m s1 s2 n) same)
