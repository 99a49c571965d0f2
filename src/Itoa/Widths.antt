-- ===== src/Itoa/Widths.antt =====
-- How many digits a number has, and that the first loop of kernel/src/extra/itoa.c counts them.
use skylight.Base.{
  ℕ, zero, suc, ◌+◌, ◌*◌, ◌/◌, ◌%◌, ◌^◌, ◌≤◌, ◌<◌, ◌≡◌, ◌≢◌, refl, ap, inl, inr, Bool, true, ◌&&◌,
  ◌||◌, List, ◌∷◌, ◌==◌, ltb, leb, if◌then◌else◌, arith, get_or, eq_or_ne, ==_of_eq, ==_of_ne,
  if_true, if_false, all_below_sound,
}
use skylight.Itoa.{digit_chars, base_max_digit_map, skip_digits}
use skylight.Itoa.Digits.{text, twice, quotient-lt, quotient-lt_mul}

abbrev pub width : (rounds base v : ℕ) → ℕ
width zero base v = 1
width (suc rounds) base v =
    let more = suc (width rounds base (v / base)) in if v / base == 0 then 1 else more

module _ (rounds base v : ℕ) where
  pub width-last : v / base ≡ 0 → width (suc rounds) base v ≡ 1
  width-last e = if_true (v / base == 0) 1 _ (==_of_eq _ 0 e)

  pub width-more : v / base ≢ 0 → width (suc rounds) base v ≡ suc (width rounds base (v / base))
  width-more e = if_false (v / base == 0) 1 _ (==_of_ne _ 0 e)

  pub text-last :
      (rest : List ℕ)
      → v / base ≡ 0
      → text (suc rounds) base v rest ≡ get_or digit_chars (v % base) 0 ∷ rest
  text-last rest e = if_true (v / base == 0) _ _ (==_of_eq _ 0 e)

  pub text-more :
      (rest : List ℕ)
      → v / base ≢ 0
      → text (suc rounds) base v rest
        ≡ text rounds base (v / base) (get_or digit_chars (v % base) 0 ∷ rest)
  text-more rest e = if_false (v / base == 0) _ _ (==_of_ne _ 0 e)

pub width-pos : (rounds base v : ℕ) → 0 < width rounds base v
width-pos zero base v = omega arith
width-pos (suc rounds) base v = elim (eq_or_ne (v / base) 0) [
  | inl e ↦ omega (arith, width-last rounds base v e)
  | inr ne ↦ omega (arith, width-more rounds base v ne)
]

-- As often as the first loop takes a digit away, the number has digits.
pub skip_digits_lem :
    (rounds base i v : ℕ)
    → 2 ≤ base
    → v < twice rounds
    → width rounds base v ≤ i
    → skip_digits base i v + width rounds base v ≡ suc i
unfolding skip_digits
skip_digits_lem rounds base zero v low fits short = absurd (omega (arith, width-pos rounds base v))
skip_digits_lem zero base (suc i) v low fits short =
    let none_left : v / base ≡ 0 = grind arith in rw (==_of_eq (v / base) 0 none_left) (omega arith)
skip_digits_lem (suc rounds) base (suc i) v low fits short = elim (eq_or_ne (v / base) 0) [
  | inl e ↦ rw (==_of_eq (v / base) 0 e) (omega arith)
  | inr ne ↦
      let rest =
        skip_digits_lem rounds base i (v / base) low (quotient-lt v base (twice rounds) low fits)
          (omega (arith, width-more rounds base v ne)) in
      rw (==_of_ne (v / base) 0 ne) (omega (arith, rest))
]

abbrev pub power : (base n : ℕ) → ℕ
power base zero = 1
power base (suc n) = base * power base n

width-le : (rounds base n v : ℕ) → 2 ≤ base → 0 < n → v < power base n → width rounds base v ≤ n
width-le zero base n v low some_digit fits = omega arith
width-le (suc rounds) base zero v low some_digit fits = absurd (omega arith)
width-le (suc rounds) base (suc n) v low some_digit fits = elim (eq_or_ne (v / base) 0) [
  | inl e ↦ omega (arith, width-last rounds base v e)
  | inr ne ↦
      let less : v / base < power base n =
        quotient-lt_mul v base (power base n) (omega arith) fits in
      let left : 0 < n = elim (eq_or_ne n 0) [
        | inl z ↦ absurd (ne (omega (arith, less, ap (power base) z)))
        | inr p ↦ omega arith
      ] in
      omega (arith, width-more rounds base v ne, width-le rounds base n (v / base) low left less)
]

-- Every number of 64 bits fits into the digits that the table has for its base.
abbrev is_wide : ℕ → Bool
is_wide base =
    let digits = get_or base_max_digit_map base 0 in
    ltb base 2 || (leb (2 ^ 64) (power base digits) && (leb digits 64 && ltb 0 digits))

is_wide-lem : (base : ℕ) → base < 17 → is_wide base ≡ true
is_wide-lem base h = all_below_sound 17 is_wide base refl h

pub max_digits_bounds :
    (base : ℕ)
    → 2 ≤ base
    → base ≤ 16
    → (0 < get_or base_max_digit_map base 0) × (get_or base_max_digit_map base 0 ≤ 64)
max_digits_bounds base low high = ground (arith, is_wide-lem base (omega arith))

pub width-max_digits :
    (rounds base v : ℕ)
    → 2 ≤ base
    → base ≤ 16
    → v < 2 ^ 64
    → width rounds base v ≤ get_or base_max_digit_map base 0
width-max_digits rounds base v low high fits =
    let (some_digit, few) = max_digits_bounds base low high in
    let wide : 2 ^ 64 ≤ power base (get_or base_max_digit_map base 0) =
      ground (arith, is_wide-lem base (omega arith)) in
    width-le rounds base (get_or base_max_digit_map base 0) v low some_digit (omega arith)
