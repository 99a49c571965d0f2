-- ===== src/Vectors/Allocation.antt =====
-- Which vectors of kernel/src/cpu/interrupts/idt.c are taken.
use skylight.Base.{
  ℕ, zero, suc, ◌+◌, ◌%◌, ◌≤◌, ◌<◌, ◌≡◌, ◌⊎◌, ◌∙◌, refl, ap, sym, inl, inr, Bool, true, false, List,
  [], ◌∷◌, none, some, length, get_or, set, length-set, eq_or_ne, arith,
}
use native.Mathlib.Decide.{dec_lt}
use mathlib.Core.Bool.{false≢true}
use skylight.Vectors.{
  Idt, max_descriptors, exception_count, find_free, idt_allocate_vector, idt_free_vector,
  idt_assemble, assemble_from,
}

-- What `find_free` finds: the first vector that is not taken.
data Search (vectors : List Bool) : Type 0 where
  full :
      find_free vectors ≡ none
      → ((j : ℕ) → j < length vectors → get_or vectors j true ≡ true)
      → Search vectors
  at :
      (i : ℕ)
      → find_free vectors ≡ some i
      → i < length vectors
      → get_or vectors i true ≡ false
      → ((j : ℕ) → j < i → get_or vectors j true ≡ true)
      → Search vectors

search : (vectors : List Bool) → Search vectors
unfolding find_free
search [] = full refl (λ j h. absurd (omega arith))
search (false ∷ vectors) = at 0 refl (omega arith) refl (λ j h. absurd (omega arith))
search (true ∷ vectors) = behind (search vectors)
  where
    behind : Search vectors → Search (true ∷ vectors)
    behind (full none_free taken) = full (rw none_free) go
      where
        go : (j : ℕ) → j < suc (length vectors) → get_or (true ∷ vectors) j true ≡ true
        go zero h = refl
        go (suc j) h = taken j (omega arith)
    behind (at i found low free below) = at (suc i) (rw found) (omega arith) free go
      where
        go : (j : ℕ) → j < suc i → get_or (true ∷ vectors) j true ≡ true
        go zero h = refl
        go (suc j) h = below j (omega arith)

-- Of 256 vectors, `idt_allocate_vector` returns the first that is not taken and takes it; where
-- all are taken it returns 0 and changes nothing.
pub idt_allocate_vector_lem :
    (s : Idt)
    → length s.vectors ≡ max_descriptors
    → (((j : ℕ) → j < max_descriptors → get_or s.vectors j true ≡ true)
        × (idt_allocate_vector s ≡ (0, s)))
      ⊎ ((i : ℕ) × (i < max_descriptors)
          × (get_or s.vectors i true ≡ false)
          × ((j : ℕ) → j < i → get_or s.vectors j true ≡ true)
          × (idt_allocate_vector s ≡ (i, record s { vectors = set s.vectors i true })))
unfolding idt_allocate_vector
idt_allocate_vector_lem s size = elim (search s.vectors) [
  | full none_free taken ↦
      inl (λ j h. taken j (omega (arith, size)), rw (idt_allocate_vector, none_free))
  | at i found low free below ↦
      let byte : i % 256 ≡ i = omega (arith, size) in
      inr (i, omega (arith, size), free, below, rw (idt_allocate_vector, found, byte))
]

-- The vectors of the processor's exceptions are taken.
pub record IsReserved (s : Idt) : Type 0 where
  pub size : length s.vectors ≡ max_descriptors
  pub exceptions : (v : ℕ) → v < exception_count → get_or s.vectors v true ≡ true

taken_set : (l : List Bool) (i v : ℕ) → get_or l v true ≡ true → get_or (set l i true) v true ≡ true
taken_set [] i v taken = refl
taken_set (b ∷ l) zero zero taken = refl
taken_set (b ∷ l) zero (suc v) taken = taken
taken_set (b ∷ l) (suc i) zero taken = taken
taken_set (b ∷ l) (suc i) (suc v) taken = taken_set l i v taken

pub marked : (l : List Bool) (i : ℕ) → get_or (set l i true) i true ≡ true
marked [] i = refl
marked (b ∷ l) zero = refl
marked (b ∷ l) (suc i) = marked l i

assembled :
    (stubs : ℕ → ℕ) (rounds vector : ℕ) (s : Idt)
    → ((v : ℕ) → v < vector → get_or s.vectors v true ≡ true)
    → (length (assemble_from stubs rounds vector s).vectors ≡ length s.vectors)
      × ((v : ℕ)
          → v < vector + rounds
          → get_or (assemble_from stubs rounds vector s).vectors v true ≡ true)
unfolding assemble_from
assembled stubs zero vector s before = (refl, λ v h. before v (omega arith))
assembled stubs (suc rounds) vector s before =
    let next = set s.vectors vector true in
    let more : (v : ℕ) → v < suc vector → get_or next v true ≡ true = λ v h.
      elim (eq_or_ne v vector) [
        | inl same ↦ ap (λ k. get_or next k true) same ∙ marked s.vectors vector
        | inr other ↦ taken_set s.vectors vector v (before v (omega (arith, other)))
      ] in
    let (size, taken) = assembled stubs rounds (suc vector) _ more in
    (size ∙ length-set s.vectors vector true, λ v h. taken v (omega arith))

pub idt_assemble_lem :
    (stubs : ℕ → ℕ) (s : Idt)
    → length s.vectors ≡ max_descriptors
    → IsReserved (idt_assemble stubs s)
idt_assemble_lem stubs s size =
    let (same, taken) = assembled stubs exception_count 0 s (λ v h. absurd (omega arith)) in
    record { size = same ∙ size; exceptions = λ v h. taken v (omega arith) }

-- Where the vectors of the processor's exceptions are taken, `idt_allocate_vector` returns 0 or a
-- vector behind them.
pub idt_allocate_vector-IsReserved :
    (s : Idt)
    → IsReserved s
    → ((idt_allocate_vector s).0 ≡ 0) ⊎ (exception_count ≤ (idt_allocate_vector s).0)
idt_allocate_vector-IsReserved s r = elim (idt_allocate_vector_lem s r.size) [
  | inl (_, same) ↦ inl (ap (λ t. t.0) same)
  | inr (i, _, free, _, done) ↦ elim (dec_lt i exception_count) [
    | yes low ↦ absurd (false≢true (sym free ∙ r.exceptions i low))
    | no high ↦ inr (rw done (omega arith))
  ]
]

-- A vector that is free, with every one below it taken.
find_free-at :
    (l : List Bool) (i : ℕ)
    → i < length l
    → ((j : ℕ) → j < i → get_or l j true ≡ true)
    → find_free (set l i false) ≡ some i
unfolding find_free
find_free-at [] i h below = absurd (omega arith)
find_free-at (b ∷ l) zero h below = refl
find_free-at (b ∷ l) (suc i) h below =
    rw (below 0 (omega arith), find_free-at l i (omega arith) (λ j k. below (suc j) (omega arith)))

freed_next :
    (t : Idt) (i : ℕ)
    → i < max_descriptors
    → length t.vectors ≡ max_descriptors
    → ((j : ℕ) → j < i → get_or t.vectors j true ≡ true)
    → (idt_allocate_vector (idt_free_vector i t)).0 ≡ i
unfolding idt_free_vector idt_allocate_vector
freed_next t i low size below =
    rw (idt_allocate_vector, find_free-at t.vectors i (omega (arith, size)) below) (omega arith)

-- Of 256 vectors, freeing the one that was just allocated, if it is not 0, makes it the next to be
-- allocated.
pub allocate-release :
    (s : Idt)
    → length s.vectors ≡ max_descriptors
    → 0 < (idt_allocate_vector s).0
    → let (vector, t) = idt_allocate_vector s in
      (idt_allocate_vector (idt_free_vector vector t)).0 ≡ vector
allocate-release s size given = elim (idt_allocate_vector_lem s size) [
  | inl (_, same) ↦ absurd (omega (arith, given, ap (λ t. t.0) same))
  | inr (i, low, _, below, done) ↦ rw done (
      freed_next (record s { vectors = set s.vectors i true }) i low
        (length-set s.vectors i true ∙ size) (λ j h. taken_set s.vectors i j (below j h)))
]
