-- ===== src/Vectors/Gates.antt =====
-- The gates of kernel/src/cpu/interrupts/idt.c.
use skylight.Base.{ℕ, ◌+◌, ◌*◌, ◌^◌, ◌<◌, ◌≡◌, ◌≢◌, ==_refl, ==_of_ne, arith, refl}
use skylight.Vectors.{
  Descriptor, descriptor, descriptor_flags, ist_routine, Idt, idt_install_irq_handler,
}

-- The address that the processor takes out of a gate.
abbrev pub isr_of : Descriptor → ℕ
isr_of d = d.base_low + d.base_mid * 2 ^ 16 + d.base_high * 2 ^ 32

isr_of-descriptor : (isr flags ist : ℕ) → isr < 2 ^ 64 → isr_of (descriptor isr flags ist) ≡ isr
isr_of-descriptor isr flags ist fits = omega arith

-- Installing a handler makes the gate of its vector lead to that vector's stub, at an address
-- below `2 ^ 64`, and enters the handler; another vector keeps its gate and its handler.
pub idt_install_irq_handler_lem :
    (stubs : ℕ → ℕ) (vector handler other : ℕ) (s : Idt)
    → stubs vector < 2 ^ 64
    → other ≢ vector
    → let t = idt_install_irq_handler stubs vector handler s in
      (isr_of (t.gates vector) ≡ stubs vector)
      × (t.handlers vector ≡ handler)
      × (t.gates other ≡ s.gates other)
      × (t.handlers other ≡ s.handlers other)
unfolding idt_install_irq_handler
idt_install_irq_handler_lem stubs vector handler other s fits apart =
    rw (==_refl vector, ==_of_ne other vector apart)
      (isr_of-descriptor (stubs vector) descriptor_flags ist_routine fits, refl, refl, refl)
