-- ===== src/Vectors/Given.antt =====
-- Which vectors kernel/src/cpu/interrupts/idt.c gives out in the course of calls: the lowest one
-- that is not in a set of vectors.
use skylight.Base.{
  ℕ, zero, suc, ◌+◌, ◌%◌, ◌≤◌, ◌<◌, ◌≡◌, ◌∙◌, refl, ap, sym, inl, inr, Bool, true, false, List, [],
  ◌∷◌, Option, none, some, ◌==◌, ==_of_eq, ==_of_ne, if_true, if_false, if◌then◌else◌, ltb, length,
  get_or, set, length-set, get_or-set_ne, eq_or_ne, arith,
}
use native.Mathlib.Decide.{dec_lt}
use skylight.Vectors.{
  Idt, max_descriptors, exception_count, update, idt_allocate_vector, idt_free_vector,
  idt_install_irq_handler, idt_assemble, assemble_from,
}
use skylight.Vectors.Allocation.{idt_allocate_vector_lem, idt_assemble_lem, marked}

-- A call; its vector is a byte.
pub data Call : Type 0 where
  allocate : Call
  install : (vector handler : ℕ) → Call
  release : (vector : ℕ) → Call

-- The vectors that the calls give out.
abbrev pub given : (stubs : ℕ → ℕ) → List Call → Idt → List ℕ
given stubs [] s = []
given stubs (allocate ∷ calls) s =
    let (vector, t) = idt_allocate_vector s in vector ∷ given stubs calls t
given stubs (install vector handler ∷ calls) s =
    given stubs calls (idt_install_irq_handler stubs (vector % 256) handler s)
given stubs (release vector ∷ calls) s = given stubs calls (idt_free_vector (vector % 256) s)

-- The lowest of the vectors from `i` on that is not in the set.
abbrev pub lowest : (rounds i : ℕ) → (ℕ → Bool) → Option ℕ
lowest zero i held = none
lowest (suc rounds) i held =
    let rest = lowest rounds (suc i) held in if held i then rest else some i

-- The vectors that are to be given out, where those of the set are held: 0 where all are.
abbrev pub expected : List Call → (held : ℕ → Bool) → List ℕ
expected [] held = []
expected (allocate ∷ calls) held = elim (lowest max_descriptors 0 held) [
  | none ↦ 0 ∷ expected calls held
  | some vector ↦ vector ∷ expected calls (update held vector true)
]
expected (install vector handler ∷ calls) held = expected calls held
expected (release vector ∷ calls) held = expected calls (update held (vector % 256) false)

lowest-at :
    (rounds k i : ℕ) (held : ℕ → Bool)
    → k ≤ i
    → i < k + rounds
    → held i ≡ false
    → ((j : ℕ) → j < i → held j ≡ true)
    → lowest rounds k held ≡ some i
lowest-at zero k i held low high free below = absurd (omega arith)
lowest-at (suc rounds) k i held low high free below = elim (eq_or_ne k i) [
  | inl same ↦ if_false (held k) _ _ (ap held same ∙ free) ∙ ap some same
  | inr other ↦
      if_true (held k) _ _ (below k (omega (arith, other)))
      ∙ lowest-at rounds (suc k) i held (omega (arith, other)) (omega arith) free below
]

lowest-none :
    (rounds k : ℕ) (held : ℕ → Bool)
    → ((j : ℕ) → j < k + rounds → held j ≡ true)
    → lowest rounds k held ≡ none
lowest-none zero k held all = refl
lowest-none (suc rounds) k held all =
    if_true (held k) _ _ (all k (omega arith))
    ∙ lowest-none rounds (suc k) held (λ j h. all j (omega arith))

-- The flags of the vectors are those of the set.
pub record Holds (held : ℕ → Bool) (s : Idt) : Type 0 where
  pub size : length s.vectors ≡ max_descriptors
  pub same : (v : ℕ) → v < max_descriptors → get_or s.vectors v true ≡ held v

cleared : (l : List Bool) (i : ℕ) → i < length l → get_or (set l i false) i true ≡ false
cleared [] i h = absurd (omega arith)
cleared (b ∷ l) zero h = refl
cleared (b ∷ l) (suc i) h = cleared l i (omega arith)

Holds-taken :
    (held : ℕ → Bool) (s : Idt) (i : ℕ)
    → Holds held s
    → Holds (update held i true) (record s { vectors = set s.vectors i true })
Holds-taken held s i h = record {
  size = length-set s.vectors i true ∙ h.size;
  same = λ v low. elim (eq_or_ne v i) [
    | inl e ↦
        ap (λ k. get_or (set s.vectors i true) k true) e
        ∙ marked s.vectors i
        ∙ sym (if_true (v == i) _ _ (==_of_eq v i e))
    | inr ne ↦
        get_or-set_ne s.vectors i v true true (λ e. ne (sym e))
        ∙ h.same v low
        ∙ sym (if_false (v == i) _ _ (==_of_ne v i ne))
  ];
}

Holds-freed :
    (held : ℕ → Bool) (s : Idt) (i : ℕ)
    → i < max_descriptors
    → Holds held s
    → Holds (update held i false) (idt_free_vector i s)
unfolding idt_free_vector
Holds-freed held s i byte h = record {
  size = length-set s.vectors i false ∙ h.size;
  same = λ v low. elim (eq_or_ne v i) [
    | inl e ↦
        ap (λ k. get_or (set s.vectors i false) k true) e
        ∙ cleared s.vectors i (omega (arith, h.size))
        ∙ sym (if_true (v == i) _ _ (==_of_eq v i e))
    | inr ne ↦
        get_or-set_ne s.vectors i v false true (λ e. ne (sym e))
        ∙ h.same v low
        ∙ sym (if_false (v == i) _ _ (==_of_ne v i ne))
  ];
}

Holds-installed :
    (stubs : ℕ → ℕ) (held : ℕ → Bool) (s : Idt) (vector handler : ℕ)
    → Holds held s
    → Holds held (idt_install_irq_handler stubs vector handler s)
unfolding idt_install_irq_handler
Holds-installed stubs held s vector handler h = record { size = h.size; same = h.same }

given-expected :
    (stubs : ℕ → ℕ) (calls : List Call) (held : ℕ → Bool) (s : Idt)
    → Holds held s
    → given stubs calls s ≡ expected calls held
given-expected stubs [] held s h = refl
given-expected stubs (install vector handler ∷ calls) held s h =
    given-expected stubs calls held _ (Holds-installed stubs held s (vector % 256) handler h)
given-expected stubs (release vector ∷ calls) held s h =
    given-expected stubs calls _ _ (Holds-freed held s (vector % 256) (omega arith) h)
given-expected stubs (allocate ∷ calls) held s h = elim (idt_allocate_vector_lem s h.size) [
  | inl (all, done) ↦
      rw
        (
          done,
          expected,
          lowest-none max_descriptors 0 held
              (λ j low. sym (h.same j (omega arith)) ∙ all j (omega arith)),
        )
        (ap (λ l. 0 ∷ l) (given-expected stubs calls held s h))
  | inr (i, low, free, below, done) ↦
      rw
        (
          done,
          expected,
          lowest-at max_descriptors 0 i held (omega arith) (omega arith) (sym (h.same i low) ∙ free)
              (λ j less. sym (h.same j (omega arith)) ∙ below j less),
        )
        (ap (λ l. i ∷ l) (given-expected stubs calls _ _ (Holds-taken held s i h)))
]

assemble_from-behind :
    (stubs : ℕ → ℕ) (rounds vector v : ℕ) (s : Idt)
    → vector + rounds ≤ v
    → get_or (assemble_from stubs rounds vector s).vectors v true ≡ get_or s.vectors v true
unfolding assemble_from
assemble_from-behind stubs zero vector v s behind = refl
assemble_from-behind stubs (suc rounds) vector v s behind =
    assemble_from-behind stubs rounds (suc vector) v _ (omega arith)
    ∙ get_or-set_ne s.vectors vector v true true (omega arith)

-- Behind `idt_assemble` on 256 vectors of which none is taken, whatever vectors are allocated,
-- handlers are installed and vectors are freed in whatever order, those of the processor's
-- exceptions too, each allocation gives out the lowest vector that is not in the set of the 32
-- exceptions and the vectors given out, less those freed since, and 0 where that set has all.
pub idt_assemble-given :
    (stubs : ℕ → ℕ) (calls : List Call) (s : Idt)
    → length s.vectors ≡ max_descriptors
    → ((v : ℕ) → v < max_descriptors → get_or s.vectors v true ≡ false)
    → given stubs calls (idt_assemble stubs s) ≡ expected calls (λ v. ltb v exception_count)
idt_assemble-given stubs calls s size free =
    let r = idt_assemble_lem stubs s size in
    given-expected stubs calls (λ v. ltb v exception_count) (idt_assemble stubs s)
      (record {
        size = r.size;
        same = λ v low. elim (dec_lt v exception_count) [
          | yes h ↦ r.exceptions v h ∙ ground arith
          | no h ↦
              assemble_from-behind stubs exception_count 0 v s (omega arith)
              ∙ free v low
              ∙ ground arith
        ];
      })
