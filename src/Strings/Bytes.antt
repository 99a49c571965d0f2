-- ===== src/Strings/Bytes.antt =====
-- Strings in memory, and `strlen` of kernel/src/extra/std/strlen.c.
use skylight.Base.{
  ℕ, zero, suc, ◌+◌, ◌≤◌, ◌<◌, ◌≡◌, ◌∙◌, List, [], ◌∷◌, some, ==_of_ne, ==_of_eq, length, arith,
}
use skylight.Strings.{Memory, strlen}

-- The characters `xs`, none of them 0, stand at `p`, with a 0 behind them.
abbrev pub IsString : Memory → ℕ → List ℕ → Type 0
IsString m p [] = m p ≡ 0
IsString m p (x ∷ xs) = (m p ≡ x) × (0 < x) × (x < 256) × IsString m (suc p) xs

-- A string is one in every memory that agrees on its bytes.
pub IsString-frame :
    (m n : Memory) (p : ℕ) (xs : List ℕ)
    → ((q : ℕ) → p ≤ q → q < suc (p + length xs) → n q ≡ m q)
    → IsString m p xs
    → IsString n p xs
IsString-frame m n p [] same i = same p (omega arith) (omega arith) ∙ i
IsString-frame m n p (x ∷ xs) same (here, pos, byte, rest) = (
  same p (omega arith) (omega arith) ∙ here,
  pos,
  byte,
  IsString-frame m n (suc p) xs (λ q low high. same q (omega arith) (omega arith)) rest,
)

-- With more rounds than the string at `p` has characters, `strlen` returns their number.
pub strlen_lem :
    (rounds : ℕ) (m : Memory) (p : ℕ) (xs : List ℕ)
    → IsString m p xs
    → length xs < rounds
    → strlen rounds m p ≡ some (length xs)
unfolding strlen
strlen_lem zero m p xs i few = absurd (omega arith)
strlen_lem (suc rounds) m p [] i few = rw (==_of_eq (m p) 0 i)
strlen_lem (suc rounds) m p (x ∷ xs) (here, pos, byte, rest) few =
    rw (==_of_ne (m p) 0 (omega arith), strlen_lem rounds m (suc p) xs rest (omega arith))
