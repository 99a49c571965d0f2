-- ===== src/Itoa/RoundTrip.antt =====
-- What `utoa` and `itoa` of kernel/src/extra/itoa.c write stands for the number.
use skylight.Base.{
  ℕ, zero, suc, ◌+◌, ◌-◌, ◌/◌, ◌%◌, ◌^◌, ◌≤◌, ◌<◌, ◌≡◌, ◌≢◌, ◌∙◌, ◌⊎◌, refl, sym, ap, inl, inr,
  ◌||◌, List, [], ◌∷◌, some, ◌==◌, ltb, arith, get_or, eq_or_ne, ==_of_eq, ==_of_ne, if_true,
  if_false, lt→ltb,
}
use mathlib.Core.Option.{map}
use mathlib.Core.Path.{subst}
use skylight.Strings.{Memory, store}
use skylight.Strings.Bytes.{IsString}
use skylight.Serial.Shell.{memset}
use skylight.Itoa.{
  digit_chars, base_max_digit_map, skip_digits, write_digits, write_negative, utoa, itoa,
}
use skylight.Itoa.Digits.{text, twice, value_from, value_from-text}
use skylight.Itoa.Widths.{
  width, width-pos, text-last, skip_digits_lem, width-max_digits, max_digits_bounds,
}
use skylight.Itoa.Writing.{Wrote, IsString-store, write_digits_lem, write_negative_lem}

-- The bytes that the table has for the base, and one more.
abbrev pub reserved : (base : ℕ) → ℕ
reserved base = get_or base_max_digit_map base 0 + 1

cleared : (m : Memory) (str count q : ℕ) → str ≤ q → q < str + count → memset m str 0 count q ≡ 0
cleared m str count q low high = ground arith

uncleared :
    (m : Memory) (str count q : ℕ) → (q < str) ⊎ (str + count ≤ q) → memset m str 0 count q ≡ m q
uncleared m str count q out = ground (arith, out)

utoa-zero :
    (rounds : ℕ) (m : Memory) (value str base : ℕ)
    → 2 ≤ base
    → base ≤ 16
    → value ≡ 0
    → utoa rounds m value str base ≡ some (str, store (memset m str 0 (reserved base)) str b'0')
unfolding utoa
utoa-zero rounds m value str base low high e =
    if_false (ltb base 2 || ltb 16 base) _ _ (ground arith)
    ∙ if_true (value == 0) _ _ (==_of_eq value 0 e)

utoa-digits :
    (rounds : ℕ) (m : Memory) (value str base : ℕ)
    → 2 ≤ base
    → base ≤ 16
    → value ≢ 0
    → utoa rounds m value str base
      ≡ map
          (λ n. (str, n))
          (write_digits rounds
            (memset m str 0 (reserved base))
            str
            base
            (get_or base_max_digit_map base 0
              - skip_digits base (get_or base_max_digit_map base 0) value)
            value)
unfolding utoa
utoa-digits rounds m value str base low high ne =
    if_false (ltb base 2 || ltb 16 base) _ _ (ground arith)
    ∙ if_false (value == 0) _ _ (==_of_ne value 0 ne)

-- The memory `n` has the text of the number at `str`, and is `m` outside the bytes reserved for it.
abbrev pub Printed : Memory → Memory → (str base : ℕ) → List ℕ → Type 0
Printed m n str base cs =
    IsString n str cs × ((q : ℕ) → (q < str) ⊎ (str + reserved base ≤ q) → n q ≡ m q)

Wrote-Printed :
    (m n : Memory) (str base count : ℕ) (cs : List ℕ)
    → count ≤ get_or base_max_digit_map base 0
    → Wrote (memset m str 0 (reserved base)) n (str + 0) count cs
    → Printed m n str base cs
Wrote-Printed m n str base count cs short w = (
  subst (λ p. IsString n p cs) (omega arith) w.0,
  λ q out. w.1 q (omega (arith, out, short)) ∙ uncleared m str (reserved base) q out,
)

zero-text :
    (rounds base value : ℕ)
    → 0 < base
    → 0 < rounds
    → value ≡ 0
    → text rounds base value [] ≡ b'0' ∷ []
zero-text zero base value pos some_round e = absurd (omega arith)
zero-text (suc rounds) base value pos some_round e =
    let quotient : value / base ≡ 0 = grind arith in
    let remainder : value % base ≡ 0 = grind arith in
    text-last rounds base value [] quotient ∙ ap (λ k. get_or digit_chars k 0 ∷ []) remainder

-- For a base from 2 to 16 and a value of 64 bits below 2 to the number of rounds, of which there
-- is one at least, `utoa` returns `str`, the text of the value stands there as a string, reading
-- the text in the base gives the value, and no byte outside the ones that the table has for the
-- base, and one more, changes.
pub utoa_lem :
    (rounds : ℕ) (m : Memory) (value str base : ℕ)
    → 2 ≤ base
    → base ≤ 16
    → value < 2 ^ 64
    → value < twice rounds
    → 0 < rounds
    → (n : Memory) × (utoa rounds m value str base ≡ some (str, n))
      × Printed m n str base (text rounds base value [])
      × (value_from base 0 (text rounds base value []) ≡ value)
utoa_lem rounds m value str base low high word fits some_round =
    let most = get_or base_max_digit_map base 0 in
    let m' = memset m str 0 (reserved base) in
    let (least, few) = max_digits_bounds base low high in
    let read = value_from-text rounds base value [] low high fits some_round in
    elim (eq_or_ne value 0) [
      | inl e ↦
          let same = zero-text rounds base value (omega arith) some_round e in
          let end = cleared m str (reserved base) (suc str) (omega arith) (omega (arith, least)) in
          (
            store m' str b'0',
            utoa-zero rounds m value str base low high e,
            (
              subst (IsString (store m' str b'0') str) (sym same)
                  (IsString-store m' str b'0' [] (omega arith) (omega arith) end),
              λ q out. ground (arith, out, uncleared m str (reserved base) q out),
            ),
            read,
          )
      | inr ne ↦
          let short = width-max_digits rounds base value low high word in
          let skipped = skip_digits_lem rounds base most value low fits short in
          let some_digit = width-pos rounds base value in
          let start = most - skip_digits base most value in
          let counted : suc start ≡ 0 + width rounds base value =
            omega (arith, skipped, short, some_digit) in
          let (n, run, wrote) =
            write_digits_lem str base low high rounds m' start 0 value [] fits some_round
              (omega (arith, counted, short, few)) counted
              (cleared m str (reserved base) (suc (str + start)) (omega arith)
                (omega (arith, counted, short))) in
          (
            n,
            utoa-digits rounds m value str base low high ne ∙ ap (map (λ k. (str, k))) run,
            Wrote-Printed m n str base _ _ short wrote,
            read,
          )
    ]

-- A number without its sign bit is written as `utoa` writes it.
pub itoa-utoa :
    (rounds : ℕ) (m : Memory) (value str base : ℕ)
    → value < 2 ^ 63
    → itoa rounds m value str base ≡ utoa rounds m value str base
unfolding itoa utoa
itoa-utoa rounds m value str base small = rw (lt→ltb value (2 ^ 63) small)

itoa-signed :
    (rounds : ℕ) (m : Memory) (value str base : ℕ)
    → 2 ≤ base
    → base ≤ 16
    → 2 ^ 63 < value
    → itoa rounds m value str base
      ≡ some (
        str,
        store
            (write_negative
              (memset m str 0 (reserved base))
              str
              base
              (get_or base_max_digit_map base 0
                + 1
                - skip_digits base (get_or base_max_digit_map base 0) (2 ^ 64 - value))
              (2 ^ 64 - value))
            str
            b'-',
      )
unfolding itoa
itoa-signed rounds m value str base low high negative =
    if_false (ltb base 2 || ltb 16 base) _ _ (ground arith)
    ∙ if_false (value == 0) _ _ (ground arith)
    ∙ if_false (ltb value (2 ^ 63)) _ _ (ground arith)
    ∙ if_false (value == 2 ^ 63) _ _ (ground arith)

-- For a base from 2 to 16 and a negative value above the lowest one, if its size has fewer digits
-- than the table has for the base, `itoa` returns `str`, a minus sign and the text of the size
-- stand there as a string, reading that text gives the size, and no byte outside the reserved ones
-- changes. The rounds suffice for the size.
pub itoa-negative :
    (rounds : ℕ) (m : Memory) (value str base : ℕ)
    → 2 ≤ base
    → base ≤ 16
    → 2 ^ 63 < value
    → value < 2 ^ 64
    → 2 ^ 64 - value < twice rounds
    → 0 < rounds
    → width rounds base (2 ^ 64 - value) < get_or base_max_digit_map base 0
    → (n : Memory) × (itoa rounds m value str base ≡ some (str, n))
      × Printed m n str base (b'-' ∷ text rounds base (2 ^ 64 - value) [])
      × (value_from base 0 (text rounds base (2 ^ 64 - value) []) ≡ 2 ^ 64 - value)
itoa-negative rounds m value str base low high negative word fits some_round room =
    let most = get_or base_max_digit_map base 0 in
    let size = 2 ^ 64 - value in
    let digits = text rounds base size [] in
    let m' = memset m str 0 (reserved base) in
    let skipped = skip_digits_lem rounds base most size low fits (omega arith) in
    let start = most + 1 - skip_digits base most size in
    let counted : suc start ≡ suc 0 + width rounds base size = omega (arith, skipped, room) in
    let wrote =
      write_negative_lem str base low high rounds m' start 0 size [] fits some_round counted (
        cleared m str (reserved base) (suc (str + start)) (omega arith)
          (omega (arith, counted, room))) in
    let n = write_negative m' str base start size in
    (
      store n str b'-',
      itoa-signed rounds m value str base low high negative,
      (
        IsString-store n str b'-' digits (omega arith) (omega arith)
            (subst (λ p. IsString n p digits) (omega arith) wrote.0),
        λ q out. ground (
          arith,
          out,
          room,
          wrote.1 q (omega (arith, out, room)),
          uncleared m str (reserved base) q out,
        ),
      ),
      value_from-text rounds base size [] low high fits some_round,
    )

write_negative_above :
    (m : Memory) (str base i v q : ℕ) → str + i < q → write_negative m str base i v q ≡ m q
unfolding write_negative
write_negative_above m str base zero v q h = refl
write_negative_above m str base (suc i) v q h =
    let c = get_or digit_chars (v % base) 0 in
    let m' = store m (str + suc i) c in
    let rest = write_negative_above m' str base i (v / base) q (omega arith) in ground (arith, rest)

-- For a base from 2 to 16 and a negative value above the lowest one whose size has as many digits
-- as the table has for the base, the byte behind the last digit that `itoa` writes is the one that
-- was there: the text is not ended.
pub itoa-unterminated :
    (rounds : ℕ) (m : Memory) (value str base : ℕ)
    → 2 ≤ base
    → base ≤ 16
    → 2 ^ 63 < value
    → value < 2 ^ 64
    → 2 ^ 64 - value < twice rounds
    → width rounds base (2 ^ 64 - value) ≡ get_or base_max_digit_map base 0
    → (n : Memory) × (itoa rounds m value str base ≡ some (str, n))
      × (n (str + suc (width rounds base (2 ^ 64 - value)))
          ≡ m (str + suc (width rounds base (2 ^ 64 - value))))
itoa-unterminated rounds m value str base low high negative word fits full =
    let most = get_or base_max_digit_map base 0 in
    let size = 2 ^ 64 - value in
    let w = width rounds base size in
    let m' = memset m str 0 (reserved base) in
    let skipped = skip_digits_lem rounds base most size low fits (omega arith) in
    let start = most + 1 - skip_digits base most size in
    let above =
      write_negative_above m' str base start size (str + suc w) (omega (arith, skipped, full)) in
    (
      store (write_negative m' str base start size) str b'-',
      itoa-signed rounds m value str base low high negative,
      if_false (str + suc w == str) _ _ (==_of_ne (str + suc w) str (omega arith))
          ∙ above
          ∙ uncleared m str (reserved base) (str + suc w) (inr (omega (arith, full))),
    )
