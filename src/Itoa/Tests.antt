-- ===== src/Itoa/Tests.antt =====
-- Examples for the printing of numbers.
use skylight.Base.{◌+◌, ◌-◌, ◌^◌, ◌≡◌, refl, [], ◌∷◌, some, arith}
use skylight.Strings.{Memory}
use skylight.Serial.{codes}
use skylight.Itoa.{utoa, itoa}
use skylight.Itoa.Digits.{text, value_from}
use skylight.Itoa.RoundTrip.{Printed, utoa_lem, itoa-negative, itoa-unterminated}

abbrev full : Memory
full q = b'x'

utoa_lem_example :
    (n : Memory) × (utoa 64 full 254 100 16 ≡ some (100, n))
    × Printed full n 100 16 (text 64 16 254 [])
    × (value_from 16 0 (text 64 16 254 []) ≡ 254)
utoa_lem_example =
    utoa_lem 64 full 254 100 16 (omega arith) (omega arith) (omega arith) (omega arith)
      (omega arith)

text_of_254 : text 64 16 254 [] ≡ codes "fe"
text_of_254 = refl

itoa-negative_example :
    (n : Memory) × (itoa 64 full (2 ^ 64 - 120) 100 10 ≡ some (100, n))
    × Printed full n 100 10 (b'-' ∷ text 64 10 120 [])
    × (value_from 10 0 (text 64 10 120 []) ≡ 120)
itoa-negative_example =
    itoa-negative 64 full (2 ^ 64 - 120) 100 10 (omega arith) (omega arith) (omega arith)
      (omega arith) (omega arith) (omega arith) (omega arith)

itoa-unterminated_example :
    (n : Memory) × (itoa 64 full (2 ^ 63 + 1) 100 16 ≡ some (100, n)) × (n 117 ≡ b'x')
itoa-unterminated_example =
    itoa-unterminated 64 full (2 ^ 63 + 1) 100 16 (omega arith) (omega arith) (omega arith)
      (omega arith) (omega arith) refl
