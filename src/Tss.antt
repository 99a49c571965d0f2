-- ===== src/Tss.antt =====
-- kernel/src/cpu/tss/tss.c: the stacks of a task state segment. The pages of a stack are those of
-- Pmm.Lock, the descriptor is that of Gdt; the load of the selector into the processor is not part
-- of it.
pub mod Installed
mod Tests
use skylight.Base.{
  ℕ, zero, suc, ◌+◌, ◌-◌, ◌*◌, ◌%◌, ◌^◌, Option, none, some, ◌==◌, leb, if◌then◌else◌, List, [],
  ◌∷◌, get_or, set, add64,
}
use skylight.Pmm.{Pmm, paging_page_size}
use skylight.Pmm.Lock.{PoolHeap, pmm_alloc_pool}
use skylight.Gdt.{Gdt, gdt_install_tss}

pub record Tss : Type 0 where
  pub rsp : List ℕ
  pub ist : List ℕ
  pub io_map : ℕ

-- `sizeof(tss_t)`
abbrev pub tss_bytes : ℕ
tss_bytes = 104

-- `IST_STACK_PAGES`
abbrev pub ist_stack_pages : ℕ
ist_stack_pages = 32

abbrev pub empty_tss : Tss
empty_tss = record { rsp = 0 ∷ 0 ∷ 0 ∷ []; ist = 0 ∷ 0 ∷ 0 ∷ 0 ∷ 0 ∷ 0 ∷ 0 ∷ []; io_map = 0 }

-- The segments by the number of their processor, `ist_index`, the kernel's heap and the page
-- allocator.
pub record Stacks (H : Type 0) : Type 0 where
  pub tss_descriptors : ℕ → Tss
  pub ist_index : ℕ
  pub heap : H
  pub memory : Pmm

module _ {H : Type 0} where
  abbrev pub put_tss : (num_cpu : ℕ) → Tss → Stacks H → Stacks H
  put_tss num_cpu t s = record s {
    tss_descriptors = λ n. if n == num_cpu then t else s.tss_descriptors n;
  }

  -- A `uint8_t`.
  abbrev pub tss_get_num_stacks : Stacks H → ℕ
  tss_get_num_stacks s = (s.ist_index + 255) % 2 ^ 8

  abbrev pub tss_get_stack : (num_cpu stack : ℕ) → Stacks H → ℕ
  tss_get_stack num_cpu stack s = get_or (s.tss_descriptors num_cpu).ist stack 0

  -- The end of `tss_install`, with the segment at `base`: the selector for the processor.
  abbrev pub finish_tss : (num_cpu base : ℕ) → Gdt → Stacks H → Option (ℕ × Gdt × Stacks H)
  finish_tss num_cpu base gdt s =
      let t = s.tss_descriptors num_cpu in
      let tss : Tss = record t { rsp = set t.rsp 0 (get_or t.ist 0 0); io_map = tss_bytes } in
      elim (gdt_install_tss base gdt) [
        | none ↦ none
        | some (selector, gdt') ↦ some (selector, gdt', put_tss num_cpu tss s)
      ]

  abbrev pub finished :
      (num_cpu base : ℕ) → Gdt → Option (ℕ × Stacks H) → Option (ℕ × Gdt × Stacks H)
  finished num_cpu base gdt none = none
  finished num_cpu base gdt (some (index, s)) = finish_tss num_cpu base gdt s

module _ {H : Type 0} (heap : PoolHeap H) where
  unfoldable pub tss_add_stack : (rounds num_cpu : ℕ) → Stacks H → Option (ℕ × Stacks H)
  tss_add_stack rounds num_cpu s =
      let t = s.tss_descriptors num_cpu in
      let size = paging_page_size * ist_stack_pages in
      if leb 7 s.ist_index
      then some (1, s)
      else elim (pmm_alloc_pool heap rounds ist_stack_pages s.heap s.memory) [
        | none ↦ none
        | some (stack, h, memory) ↦ some (
          s.ist_index + 1,
          record (put_tss num_cpu (record t { ist = set t.ist s.ist_index (add64 stack size) }) s) {
            ist_index = s.ist_index + 1;
            heap = h;
            memory = memory;
          },
        )
      ]

  abbrev pub then_add : (rounds num_cpu : ℕ) → Option (ℕ × Stacks H) → Option (ℕ × Stacks H)
  then_add rounds num_cpu none = none
  then_add rounds num_cpu (some (index, s)) = tss_add_stack rounds num_cpu s

  unfoldable pub tss_install :
      (rounds num_cpu base : ℕ) → Gdt → Stacks H → Option (ℕ × Gdt × Stacks H)
  unfolding tss_add_stack
  tss_install rounds num_cpu base gdt s =
      let add = then_add rounds num_cpu in
      let cleared = put_tss num_cpu empty_tss s in
      finished num_cpu base gdt (add (add (tss_add_stack rounds num_cpu cleared)))
