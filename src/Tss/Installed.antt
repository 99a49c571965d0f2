-- ===== src/Tss/Installed.antt =====
-- The task state segment behind `tss_install`, kernel/src/cpu/tss/tss.c.
use skylight.Base.{ℕ, set, add64}
use skylight.Pmm.{Pmm}
use skylight.Gdt.{Gdt}
use skylight.Tss.{Tss}

abbrev with_stack : (index stack : ℕ) → Tss → Tss
with_stack index stack t = record t { ist = set t.ist index (add64 stack 0x20000) }
