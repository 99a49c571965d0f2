-- ===== src/Strings.antt =====
-- The string functions of kernel/src/extra/std: strlen.c, strcpy.c, strcat.c, strcmp.c, memcmp.c and
-- strncmp.c. The memory is a function from addresses to bytes; the loops run on fuel, and `none`
-- is a loop that was given too few rounds.
pub mod Bytes
pub mod Copy
pub mod Compare
mod Tests
use skylight.Base.{
  ℕ, zero, suc, ◌+◌, ◌-◌, ◌%◌, ◌^◌, Bool, true, false, not, Option, none, some, ◌==◌, ltb,
  if◌then◌else◌,
}
use mathlib.Core.Option.{map}

abbrev pub Memory : Type 0
Memory = ℕ → ℕ

abbrev pub store : Memory → ℕ → ℕ → Memory
store m p v q = if q == p then v else m q

unfoldable pub strlen : (rounds : ℕ) → Memory → ℕ → Option ℕ
strlen zero m s = none
strlen (suc rounds) m s =
    let rest = strlen rounds m (suc s) in if m s == 0 then some 0 else map suc rest

-- The loop of `strcpy`, which is the second one of `strcat` too.
unfoldable pub copy : (rounds : ℕ) → Memory → (dest src : ℕ) → Option Memory
copy zero m dest src = none
copy (suc rounds) m dest src =
    let rest = copy rounds (store m dest (m src)) (suc dest) (suc src) in
    if m src == 0 then some (store m dest 0) else rest

unfoldable pub strcpy : (rounds : ℕ) → Memory → (dest src : ℕ) → Option (ℕ × Memory)
strcpy rounds m dest src = map (λ n. (dest, n)) (copy rounds m dest src)

-- The first loop of `strcat`.
unfoldable pub end_of : (rounds : ℕ) → Memory → ℕ → Option ℕ
end_of zero m dest = none
end_of (suc rounds) m dest =
    let rest = end_of rounds m (suc dest) in if m dest == 0 then some dest else rest

unfoldable pub strcat : (rounds : ℕ) → Memory → (dest src : ℕ) → Option (ℕ × Memory)
strcat rounds m dest src = elim (end_of rounds m dest) [
  | none ↦ none
  | some end ↦ map (λ n. (dest, n)) (copy rounds m end src)
]

-- A signed character as a 32-bit word.
abbrev pub int_of : ℕ → ℕ
int_of c = if ltb c 128 then c else c + (2 ^ 32 - 256)

-- The difference of two characters as a 32-bit word.
abbrev pub difference : ℕ → ℕ → ℕ
difference a b = (int_of a + (2 ^ 32 - int_of b)) % 2 ^ 32

unfoldable pub strcmp : (rounds : ℕ) → Memory → (s1 s2 : ℕ) → Option ℕ
strcmp zero m s1 s2 = none
strcmp (suc rounds) m s1 s2 =
    let rest = strcmp rounds m (suc s1) (suc s2) in
    if m s1 == 0
    then some 0
    else if not (m s1 == m s2)
    then some (difference (m s1) (m s2))
    else if m (suc s2) == 0
    then some (int_of (m (suc s1)))
    else rest

unfoldable pub memcmp : Memory → (s1 s2 n : ℕ) → ℕ
memcmp m s1 s2 zero = 0
memcmp m s1 s2 (suc n) =
    let rest = memcmp m (suc s1) (suc s2) n in
    if not (m s1 == m s2) then difference (m s1) (m s2) else rest

-- The code does not stop at the end of a string.
unfoldable pub strncmp : Memory → (s1 s2 n : ℕ) → ℕ
strncmp m s1 s2 zero = 0
strncmp m s1 s2 (suc n) =
    let rest = strncmp m (suc s1) (suc s2) n in
    if not (m s1 == m s2) then difference (m s1) (m s2) else rest
