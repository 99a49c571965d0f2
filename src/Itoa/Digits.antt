-- ===== src/Itoa/Digits.antt =====
-- The text of a number in a base, and the number that a text stands for.
use skylight.Base.{
  ℕ, zero, suc, ◌+◌, ◌-◌, ◌*◌, ◌/◌, ◌%◌, ◌≤◌, ◌<◌, ◌≡◌, ◌≢◌, ◌∙◌, refl, ap, inl, inr, Bool, true,
  ◌&&◌, List, [], ◌∷◌, ◌==◌, ltb, if◌then◌else◌, arith, get_or, eq_or_ne, ==_of_eq, ==_of_ne,
  if_true, if_false, all_below_sound,
}
use skylight.Itoa.{digit_chars}

-- The digits of `v` in front of `rest`, with at most that many rounds.
abbrev pub text : (rounds base v : ℕ) → List ℕ → List ℕ
text zero base v rest = rest
text (suc rounds) base v rest =
    let more = text rounds base (v / base) (get_or digit_chars (v % base) 0 ∷ rest) in
    if v / base == 0 then get_or digit_chars (v % base) 0 ∷ rest else more

abbrev pub digit_of : ℕ → ℕ
digit_of c = if ltb c 58 then c - 48 else c - 87

-- The number that is read with `a` in front of the digits.
abbrev pub value_from : (base a : ℕ) → List ℕ → ℕ
value_from base a [] = a
value_from base a (c ∷ cs) = value_from base (a * base + digit_of c) cs

-- A character of the digit `k`, as a test.
abbrev is_char : ℕ → Bool
is_char k = let c = get_or digit_chars k 0 in (digit_of c == k) && (ltb 0 c && ltb c 256)

is_char-lem : (k : ℕ) → k < 16 → is_char k ≡ true
is_char-lem k h = all_below_sound 16 is_char k refl h

digit_of-chars : (k : ℕ) → k < 16 → digit_of (get_or digit_chars k 0) ≡ k
digit_of-chars k h = ground (arith, is_char-lem k h)

-- A character is a byte other than 0.
pub char_bounds : (k : ℕ) → k < 16 → (0 < get_or digit_chars k 0) × (get_or digit_chars k 0 < 256)
char_bounds k h = ground (arith, is_char-lem k h)

div_mul : (v b : ℕ) → 0 < b → (v / b) * b + v % b ≡ v
div_mul v b h = grind arith

remainder-all : (v b : ℕ) → 0 < b → v / b ≡ 0 → v % b ≡ v
remainder-all v b h e = grind arith

pub quotient-lt : (v b k : ℕ) → 2 ≤ b → v < 2 * k → v / b < k
quotient-lt v b k two h = grind arith

pub remainder-lt : (v b : ℕ) → 0 < b → v % b < b
remainder-lt v b h = grind arith

pub quotient-lt_mul : (v b k : ℕ) → 0 < b → v < b * k → v / b < k
quotient-lt_mul v b k h less = grind arith

pub quotient-pos : (v b : ℕ) → v / b ≢ 0 → v ≢ 0
quotient-pos v b h = grind arith

-- Twice itself `n` times.
abbrev pub twice : ℕ → ℕ
twice zero = 1
twice (suc n) = 2 * twice n

pub some_left : (rounds v base : ℕ) → 2 ≤ base → v < twice (suc rounds) → v / base ≢ 0 → 0 < rounds
some_left zero v base low fits more = absurd (more (grind arith))
some_left (suc rounds) v base low fits more = omega arith

-- The text stands for the number.
pub value_from-text :
    (rounds base v : ℕ) (rest : List ℕ)
    → 2 ≤ base
    → base ≤ 16
    → v < twice rounds
    → 0 < rounds
    → value_from base 0 (text rounds base v rest) ≡ value_from base v rest
value_from-text zero base v rest low high fits some_round = absurd (omega arith)
value_from-text (suc rounds) base v rest low high fits some_round =
    let k = v % base in
    let c = get_or digit_chars k 0 in
    let small = remainder-lt v base (omega arith) in
    let read : digit_of c ≡ k = digit_of-chars k (omega arith) in
    let whole = div_mul v base (omega arith) in
    elim (eq_or_ne (v / base) 0) [
      | inl last ↦
          let done : text (suc rounds) base v rest ≡ c ∷ rest =
            if_true (v / base == 0) (c ∷ rest) _ (==_of_eq _ 0 last) in
          ap (value_from base 0) done
          ∙ ap (λ n. value_from base n rest)
              (omega (arith, read, remainder-all v base (omega arith) last))
      | inr more ↦
          let next : text (suc rounds) base v rest ≡ text rounds base (v / base) (c ∷ rest) =
            if_false (v / base == 0) (c ∷ rest) _ (==_of_ne _ 0 more) in
          ap (value_from base 0) next
          ∙ value_from-text rounds base (v / base) (c ∷ rest) low high
              (quotient-lt v base (twice rounds) low fits) (some_left rounds v base low fits more)
          ∙ ap (λ n. value_from base n rest) (omega (arith, read, whole))
    ]
