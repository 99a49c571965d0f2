-- ===== src/Vectors/Tests.antt =====
-- Examples for the interrupt vectors.
use skylight.Base.{
  ℕ, zero, suc, ◌+◌, ◌<◌, ◌≡◌, refl, true, false, List, [], ◌∷◌, replicate, get_or, arith,
}
use skylight.Vectors.{Idt, descriptor, idt_assemble}
use skylight.Vectors.Given.{Call, allocate, install, release, given, idt_assemble-given}

abbrev stubs : ℕ → ℕ
stubs v = 0xffffffff80000000 + v

abbrev empty : Idt
empty = record { gates = λ v. descriptor 0 0 0; vectors = replicate 256 false; handlers = λ v. 0 }

get_or-replicate : (n v : ℕ) → v < n → get_or (replicate n false) v true ≡ false
get_or-replicate zero v low = absurd (omega arith)
get_or-replicate (suc n) zero low = refl
get_or-replicate (suc n) (suc v) low = get_or-replicate n v (omega arith)

empty-free : (v : ℕ) → v < 256 → get_or empty.vectors v true ≡ false
empty-free v low = get_or-replicate 256 v low

-- Two vectors, the first of which is freed and given out again.
abbrev calls : List Call
calls = allocate ∷ allocate ∷ install 32 5 ∷ release 32 ∷ allocate ∷ allocate ∷ []

idt_assemble-given_example : given stubs calls (idt_assemble stubs empty) ≡ 32 ∷ 33 ∷ 32 ∷ 34 ∷ []
idt_assemble-given_example = idt_assemble-given stubs calls empty refl empty-free
