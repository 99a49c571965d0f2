-- ===== src/Itoa/Writing.antt =====
-- The loops of kernel/src/extra/itoa.c that write the digits of a number.
use skylight.Base.{
  ℕ, zero, suc, ◌+◌, ◌/◌, ◌%◌, ◌≤◌, ◌<◌, ◌≡◌, ◌∙◌, ◌⊎◌, refl, inl, inr, List, ◌∷◌, some, arith,
  get_or, eq_or_ne, ==_of_eq, ==_of_ne,
}
use mathlib.Core.Path.{subst}
use skylight.Strings.{Memory, store}
use skylight.Strings.Bytes.{IsString, IsString-frame}
use skylight.Itoa.{digit_chars, write_digits, write_negative}
use skylight.Itoa.Digits.{text, twice, quotient-lt, remainder-lt, some_left, char_bounds}
use skylight.Itoa.Widths.{width, width-last, width-more, width-pos}

-- A character in front of a string.
pub IsString-store :
    (m : Memory) (p c : ℕ) (rest : List ℕ)
    → 0 < c
    → c < 256
    → IsString m (suc p) rest
    → IsString (store m p c) p (c ∷ rest)
IsString-store m p c rest pos byte i = (
  ground arith,
  pos,
  byte,
  IsString-frame m (store m p c) (suc p) rest (λ q low high. ground arith) i,
)

-- The memory `n` has the string `cs` at `p`, and is `m` but in the `count` bytes from `p` on.
abbrev pub Wrote : Memory → Memory → (p count : ℕ) → List ℕ → Type 0
Wrote m n p count cs = IsString n p cs × ((q : ℕ) → (q < p) ⊎ (p + count ≤ q) → n q ≡ m q)

module _ (str base : ℕ) (low : 2 ≤ base) (high : base ≤ 16) where
  one_digit :
      (m : Memory) (i v : ℕ) (rest : List ℕ)
      → IsString m (suc (str + i)) rest
      → Wrote m
          (store m (str + i) (get_or digit_chars (v % base) 0))
          (str + i)
          1
          (get_or digit_chars (v % base) 0 ∷ rest)
  one_digit m i v rest there =
      let small = remainder-lt v base (omega arith) in
      let (pos, byte) = char_bounds (v % base) (omega arith) in
      (
        IsString-store m (str + i) (get_or digit_chars (v % base) 0) rest pos byte there,
        λ q out. ground (arith, out),
      )

  -- What is written in front of what was written.
  more_digits :
      (m m' n : Memory) (p q' count : ℕ) (cs ds : List ℕ)
      → p + count ≡ q'
      → Wrote m m' q' 1 cs
      → Wrote m' n p count ds
      → Wrote m n p (suc count) ds
  more_digits m m' n p q' count cs ds e first others =
      (others.0, λ q out. others.1 q (omega (arith, out)) ∙ first.1 q (omega (arith, out)))

  pub write_digits_lem :
      (rounds : ℕ) (m : Memory) (i j v : ℕ) (rest : List ℕ)
      → v < twice rounds
      → 0 < rounds
      → i < 256
      → suc i ≡ j + width rounds base v
      → IsString m (suc (str + i)) rest
      → (n : Memory) × (write_digits rounds m str base i v ≡ some n)
        × Wrote m n (str + j) (width rounds base v) (text rounds base v rest)
  unfolding write_digits
  write_digits_lem zero m i j v rest fits some_round byte e there = absurd (omega arith)
  write_digits_lem (suc rounds) m i j v rest fits some_round byte e there =
      let c = get_or digit_chars (v % base) 0 in
      let m' = store m (str + i) c in
      let first = one_digit m i v rest there in
      elim (eq_or_ne (v / base) 0) [
        | inl last ↦
            let same : i ≡ j = omega (arith, e, width-last rounds base v last) in
            rw (==_of_eq (v / base) 0 last)
              (m', refl, subst (λ k. Wrote m m' (str + k) 1 (c ∷ rest)) same first)
        | inr more ↦
            let wider = width-more rounds base v more in
            let some_digit = width-pos rounds base (v / base) in
            let next : suc ((i + 255) % 256) ≡ i = omega (arith, e, wider, some_digit) in
            let (n, run, others) =
              write_digits_lem rounds m' ((i + 255) % 256) j (v / base) (c ∷ rest)
                (quotient-lt v base (twice rounds) low fits) (some_left rounds v base low fits more)
                (omega arith) (omega (arith, e, wider, next))
                (subst (λ k. IsString m' k (c ∷ rest)) (omega (arith, next)) first.0) in
            rw (==_of_ne (v / base) 0 more) (
              n,
              run,
              more_digits m m' n (str + j) (str + i) (width rounds base (v / base)) (c ∷ rest)
                  (text rounds base (v / base) (c ∷ rest)) (omega (arith, e, wider)) first others,
            )
      ]

  pub write_negative_lem :
      (rounds : ℕ) (m : Memory) (i j v : ℕ) (rest : List ℕ)
      → v < twice rounds
      → 0 < rounds
      → suc i ≡ suc j + width rounds base v
      → IsString m (suc (str + i)) rest
      → Wrote m
          (write_negative m str base i v)
          (suc (str + j))
          (width rounds base v)
          (text rounds base v rest)
  unfolding write_negative
  write_negative_lem zero m i j v rest fits some_round e there = absurd (omega arith)
  write_negative_lem (suc rounds) m zero j v rest fits some_round e there =
      absurd (omega (arith, e, width-pos (suc rounds) base v))
  write_negative_lem (suc rounds) m (suc i) j v rest fits some_round e there =
      let c = get_or digit_chars (v % base) 0 in
      let m' = store m (str + suc i) c in
      let first = one_digit m (suc i) v rest there in
      elim (eq_or_ne (v / base) 0) [
        | inl last ↦
            let same : i ≡ j = omega (arith, e, width-last rounds base v last) in
            rw (==_of_eq (v / base) 0 last)
              (subst (λ k. Wrote m m' k 1 (c ∷ rest)) (omega (arith, same)) first)
        | inr more ↦
            let wider = width-more rounds base v more in
            let some_digit = width-pos rounds base (v / base) in
            let others =
              write_negative_lem rounds m' i j (v / base) (c ∷ rest)
                (quotient-lt v base (twice rounds) low fits) (some_left rounds v base low fits more)
                (omega (arith, e, wider))
                (subst (λ k. IsString m' k (c ∷ rest)) (omega arith) first.0) in
            rw (==_of_ne (v / base) 0 more) (
              more_digits m m' (write_negative m' str base i (v / base)) (suc (str + j))
                (str + suc i) (width rounds base (v / base)) (c ∷ rest)
                (text rounds base (v / base) (c ∷ rest)) (omega (arith, e, wider)) first others)
      ]
