-- ===== src/Vectors.antt =====
-- The interrupt vectors of kernel/src/cpu/interrupts/idt.c. The addresses of the stubs, which are
-- assembly, are an argument; telling the processor of the table is not modelled.
pub mod Gates
pub mod Allocation
pub mod Given
mod Tests
use skylight.Base.{
  ℕ, zero, suc, ◌+◌, ◌*◌, ◌/◌, ◌%◌, ◌^◌, Bool, true, false, List, [], ◌∷◌, Option, none, some, ◌==◌,
  if◌then◌else◌, set,
}
use mathlib.Core.Option.{map}

abbrev pub max_descriptors : ℕ
max_descriptors = 256

abbrev pub exception_count : ℕ
exception_count = 32

-- `idt_desc_t`
pub record Descriptor : Type 0 where
  pub base_low : ℕ
  pub cs : ℕ
  pub ist : ℕ
  pub attributes : ℕ
  pub base_mid : ℕ
  pub base_high : ℕ
  pub rsv0 : ℕ

pub record Idt : Type 0 where
  pub gates : ℕ → Descriptor
  pub vectors : List Bool
  pub handlers : ℕ → ℕ

abbrev pub kernel_code : ℕ
kernel_code = 0x08

abbrev pub ist_exception : ℕ
ist_exception = 1

abbrev pub ist_routine : ℕ
ist_routine = 2

-- `IDT_DESCRIPTOR_EXCEPTION` and `IDT_DESCRIPTOR_EXTERNAL`
abbrev pub descriptor_flags : ℕ
descriptor_flags = 0x8e

abbrev pub update {ℓ} : {A : Type ℓ} → (ℕ → A) → ℕ → A → ℕ → A
update f i v j = if j == i then v else f j

abbrev pub descriptor : (isr flags ist : ℕ) → Descriptor
descriptor isr flags ist = record {
  base_low = isr % 2 ^ 16;
  cs = kernel_code;
  ist = ist;
  attributes = flags;
  base_mid = isr / 2 ^ 16 % 2 ^ 16;
  base_high = isr / 2 ^ 32 % 2 ^ 32;
  rsv0 = 0;
}

abbrev pub idt_set_descriptor : (vector isr flags ist : ℕ) → Idt → Idt
idt_set_descriptor vector isr flags ist s = record s {
  gates = update s.gates vector (descriptor isr flags ist);
}

unfoldable pub idt_install_irq_handler : (stubs : ℕ → ℕ) (vector handler : ℕ) → Idt → Idt
idt_install_irq_handler stubs vector handler s =
    idt_set_descriptor vector (stubs vector) descriptor_flags ist_routine
      (record s { handlers = update s.handlers vector handler })

-- The loop of `idt_assemble` over the vectors from `vector` on.
unfoldable pub assemble_from : (stubs : ℕ → ℕ) (rounds vector : ℕ) → Idt → Idt
assemble_from stubs zero vector s = s
assemble_from stubs (suc rounds) vector s =
    let gated = idt_set_descriptor vector (stubs vector) descriptor_flags ist_exception s in
    assemble_from stubs rounds (suc vector)
      (record gated { vectors = set gated.vectors vector true })

abbrev pub idt_assemble : (stubs : ℕ → ℕ) → Idt → Idt
idt_assemble stubs s = assemble_from stubs exception_count 0 s

-- The first vector that is not taken.
unfoldable pub find_free : List Bool → Option ℕ
find_free [] = none
find_free (taken ∷ vectors) = let rest = find_free vectors in if taken then map suc rest else some 0

unfoldable pub idt_allocate_vector : Idt → ℕ × Idt
idt_allocate_vector s = elim (find_free s.vectors) [
  | none ↦ (0, s)
  | some i ↦ (i % 256, record s { vectors = set s.vectors i true })
]

unfoldable pub idt_free_vector : ℕ → Idt → Idt
idt_free_vector vector s =
    let cleared = idt_set_descriptor vector 0 0 0 s in
    record cleared {
      handlers = update cleared.handlers vector 0;
      vectors = set cleared.vectors vector false;
    }
