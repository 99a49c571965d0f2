-- ===== src/Tss/Tests.antt =====
-- A start with memory for the stacks, over the kernel's heap.
use skylight.Base.{ℕ, true, [], ◌∷◌, some, false, Option, none}
use skylight.Pmm.{Section, Pmm, section_used, section_free}
use skylight.Pmm.Lock.{PoolHeap, pmm_alloc_pool}
use skylight.Heap.{Heap}
use skylight.Pmm.KernelHeap.{kernel_heap}
use skylight.Gdt.{Gdt}
use skylight.Tss.{Stacks, empty_tss}

abbrev section : ℕ → ℕ → ℕ → ℕ → Section
section slot start pages kind = record { slot = slot; start = start; pages = pages; kind = kind }

abbrev memory : Pmm
memory = record {
  sections =
      section 0 0 1 section_used
      ∷ section 1 0x1000 600 section_free
      ∷ section 2 0x259000 3 section_used
      ∷ [];
  table = record { head = 3; data_size = 400 };
  free_memory = 0x258000;
  allowing_allocations = true;
  pools = [];
}

abbrev no_heap : Heap
no_heap = record {
  headers = λ p. none;
  heap_start = 0;
  heap_end = 0;
  last_header = 0;
  heap_initialized = false;
  calls = [];
}

abbrev heap : PoolHeap Heap
heap = kernel_heap 9 3 0

abbrev pool : Heap × Pmm → Option (ℕ × Heap × Pmm)
pool (h, m) = pmm_alloc_pool heap 5 32 h m

abbrev after : Option (ℕ × Heap × Pmm) → Heap × Pmm
after none = (no_heap, memory)
after (some (base, h, m)) = (h, m)

abbrev one_pool : Heap × Pmm
one_pool = after (pool (no_heap, memory))

abbrev two_pools : Heap × Pmm
two_pools = after (pool one_pool)

abbrev three_pools : Heap × Pmm
three_pools = after (pool two_pools)

abbrev start : Stacks Heap
start = record { tss_descriptors = λ n. empty_tss; ist_index = 0; heap = no_heap; memory = memory }

abbrev six : Gdt
six = record { table = λ q. 0; gindex = 6 }
