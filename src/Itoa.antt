-- ===== src/Itoa.antt =====
-- kernel/src/extra/itoa.c: a number as text in a base from 2 to 16, over a memory of bytes.
pub mod Digits
pub mod Widths
pub mod Writing
pub mod RoundTrip
mod Tests
use skylight.Base.{
  ℕ, zero, suc, ◌+◌, ◌-◌, ◌/◌, ◌%◌, ◌^◌, Bool, ◌&&◌, ◌||◌, List, [], ◌∷◌, Option, none, some, ◌==◌,
  ltb, leb, if◌then◌else◌, get_or,
}
use mathlib.Core.Option.{map}
use skylight.Strings.{Memory, store}
use skylight.Serial.{codes}
use skylight.Serial.Shell.{memset}

abbrev pub base_max_digit_map : List ℕ
base_max_digit_map =
    0 ∷ 0 ∷ 64 ∷ 41 ∷ 32 ∷ 28 ∷ 25 ∷ 23 ∷ 22 ∷ 21 ∷ 20 ∷ 19 ∷ 18 ∷ 18 ∷ 17 ∷ 17 ∷ 16 ∷ []

abbrev pub digit_chars : List ℕ
digit_chars = codes "0123456789abcdef"

-- The first loop, from `i` down: it stops at the last digit, or at 0.
unfoldable pub skip_digits : (base i tmp : ℕ) → ℕ
skip_digits base zero tmp = 0
skip_digits base (suc i) tmp =
    let rest = skip_digits base i (tmp / base) in if tmp / base == 0 then suc i else rest

-- The loop of `i >= 0`, which ends only after the last digit; `none` is too few rounds. The byte
-- `i` wraps around below 0.
unfoldable pub write_digits : (rounds : ℕ) → Memory → (str base i tmp : ℕ) → Option Memory
write_digits zero m str base i tmp = none
write_digits (suc rounds) m str base i tmp =
    let m' = store m (str + i) (get_or digit_chars (tmp % base) 0) in
    let rest = write_digits rounds m' str base ((i + 255) % 256) (tmp / base) in
    if tmp / base == 0 then some m' else rest

-- The loop of `i >= 1`, for a negative number.
unfoldable pub write_negative : Memory → (str base i tmp : ℕ) → Memory
write_negative m str base zero tmp = m
write_negative m str base (suc i) tmp =
    let m' = store m (str + suc i) (get_or digit_chars (tmp % base) 0) in
    let rest = write_negative m' str base i (tmp / base) in if tmp / base == 0 then m' else rest

-- The pointer that is returned, and the memory; NULL is 0.
unfoldable pub utoa : (rounds : ℕ) → Memory → (value str base : ℕ) → Option (ℕ × Memory)
unfolding skip_digits write_digits
utoa rounds m value str base =
    let base_max_digits = get_or base_max_digit_map base 0 in
    let m' = memset m str 0 (base_max_digits + 1) in
    let offset = skip_digits base base_max_digits value in
    let written =
      map (λ n. (str, n)) (write_digits rounds m' str base (base_max_digits - offset) value) in
    if ltb base 2 || ltb 16 base
    then some (0, m)
    else if value == 0
    then some (str, store m' str b'0')
    else written

-- A value is a word of 64 bits; `-value` of the lowest one is not defined, and `none`.
unfoldable pub itoa : (rounds : ℕ) → Memory → (value str base : ℕ) → Option (ℕ × Memory)
unfolding skip_digits write_digits write_negative
itoa rounds m value str base =
    let base_max_digits = get_or base_max_digit_map base 0 in
    let m' = memset m str 0 (base_max_digits + 1) in
    let positive =
      map (λ n. (str, n))
        (write_digits rounds m' str base (base_max_digits - skip_digits base base_max_digits value)
          value) in
    let size = 2 ^ 64 - value in
    let negative = some (
      str,
      store
          (write_negative m' str base (base_max_digits + 1 - skip_digits base base_max_digits size)
            size)
          str b'-',
    ) in
    if ltb base 2 || ltb 16 base
    then some (0, m)
    else if value == 0
    then some (str, store m' str b'0')
    else if ltb value (2 ^ 63)
    then positive
    else if value == 2 ^ 63
    then none
    else negative
