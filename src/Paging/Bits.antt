-- ===== src/Paging/Bits.antt =====
-- `bit_or` of numbers, digit by digit and page by page.
use Prim.Native.Nat.{bit_or, bit_or-bitwise, digits, max}
use skylight.Base.{ℕ, zero, suc, ◌+◌, ◌*◌, ◌/◌, ◌%◌, ◌≤◌, ◌<◌, ◌≡◌, refl, arith, ◌∙◌, ap, sym}

abbrev or_digits : ℕ → ℕ → ℕ → ℕ
or_digits n a b = digits (λ c. c) max n a b

-- As many rounds as the first number are enough.
or_digits-enough : (n m a b : ℕ) → a ≤ n → a ≤ m → or_digits n a b ≡ or_digits m a b
or_digits-enough zero zero zero b h k = refl
or_digits-enough zero (suc m) zero b h k = refl
or_digits-enough zero m (suc a) b h k = absurd (omega arith)
or_digits-enough (suc n) zero zero b h k = refl
or_digits-enough (suc n) zero (suc a) b h k = absurd (omega arith)
or_digits-enough (suc n) (suc m) zero b h k = refl
or_digits-enough (suc n) (suc m) (suc a) b h k =
    ap (λ r. r * 2 + max (suc a % 2) (b % 2))
      (or_digits-enough n m (suc a / 2) (b / 2) (omega arith) (omega arith))

pub zero-bit_or : (b : ℕ) → bit_or 0 b ≡ b
zero-bit_or b = bit_or-bitwise 0 b

pub bit_or-digit : (a b : ℕ) → bit_or a b ≡ bit_or (a / 2) (b / 2) * 2 + max (a % 2) (b % 2)
bit_or-digit zero b = omega (arith, zero-bit_or b, zero-bit_or (b / 2))
bit_or-digit (suc a) b =
    bit_or-bitwise (suc a) b
    ∙ ap (λ r. r * 2 + max (suc a % 2) (b % 2))
        (or_digits-enough a (suc a / 2) (suc a / 2) (b / 2) (omega arith) (omega arith)
          ∙ sym (bit_or-bitwise (suc a / 2) (b / 2)))

bit_or-zero_below : (n a : ℕ) → a ≤ n → bit_or a 0 ≡ a
bit_or-zero_below zero zero h = zero-bit_or 0
bit_or-zero_below zero (suc a) h = absurd (omega arith)
bit_or-zero_below (suc n) zero h = zero-bit_or 0
bit_or-zero_below (suc n) (suc a) h =
    omega (arith, bit_or-digit (suc a) 0, bit_or-zero_below n (suc a / 2) (omega arith))

pub bit_or-zero : (a : ℕ) → bit_or a 0 ≡ a
bit_or-zero a = bit_or-zero_below a a (omega arith)

-- A number without its lowest digits, and with as many zeros behind it.
abbrev halves : ℕ → ℕ → ℕ
halves zero a = a
halves (suc k) a = halves k (a / 2)

abbrev doubles : ℕ → ℕ → ℕ
doubles zero a = a
doubles (suc k) a = doubles k a * 2

bit_or-half : (a b : ℕ) → bit_or a b / 2 ≡ bit_or (a / 2) (b / 2)
bit_or-half a b = omega (arith, bit_or-digit a b)

halves-bit_or : (k a b : ℕ) → halves k (bit_or a b) ≡ bit_or (halves k a) (halves k b)
halves-bit_or zero a b = refl
halves-bit_or (suc k) a b = ap (halves k) (bit_or-half a b) ∙ halves-bit_or k (a / 2) (b / 2)

doubles-bit_or : (k a b : ℕ) → halves k b ≡ 0 → bit_or (doubles k a) b ≡ doubles k a + b
doubles-bit_or zero a b h = ap (bit_or a) h ∙ bit_or-zero a ∙ omega (arith, h)
doubles-bit_or (suc k) a b h =
    let half : doubles k a * 2 / 2 ≡ doubles k a = omega arith in
    bit_or-digit (doubles k a * 2) b
    ∙ ap (λ r. bit_or r (b / 2) * 2 + max (doubles k a * 2 % 2) (b % 2)) half
    ∙ omega (arith, doubles-bit_or k a (b / 2) h)

halves_page : (a : ℕ) → halves 12 a ≡ a / 0x1000
halves_page a = omega arith

doubles_page : (a : ℕ) → doubles 12 a ≡ a * 0x1000
doubles_page a = omega arith

-- What lies above the lowest twelve bits is not changed by them.
pub bit_or-page : (a b : ℕ) → b < 0x1000 → bit_or a b / 0x1000 ≡ a / 0x1000
bit_or-page a b h =
    let none_left : halves 12 b ≡ 0 = halves_page b ∙ omega arith in
    sym (halves_page (bit_or a b))
    ∙ halves-bit_or 12 a b
    ∙ ap (bit_or (halves 12 a)) none_left
    ∙ bit_or-zero (halves 12 a)
    ∙ halves_page a

-- Whole pages and less than one are added.
pub page-bit_or : (a b : ℕ) → b < 0x1000 → bit_or (a * 0x1000) b ≡ a * 0x1000 + b
page-bit_or a b h =
    let none_left : halves 12 b ≡ 0 = halves_page b ∙ omega arith in
    ap (λ r. bit_or r b) (sym (doubles_page a))
    ∙ doubles-bit_or 12 a b none_left
    ∙ ap (λ r. r + b) (doubles_page a)

pub bit_or-odd : (a b : ℕ) → a % 2 ≡ 1 → bit_or a b % 2 ≡ 1
bit_or-odd a b h = omega (arith, bit_or-digit a b)
