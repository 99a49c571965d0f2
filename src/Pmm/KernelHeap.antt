-- ===== src/Pmm/KernelHeap.antt =====
-- The heap of kernel/src/mem/heap/allocator.c as the one that the pools of kernel/src/mem/pmm/pfa.c
-- take their records from: each page that it maps comes from pmm_alloc_page. Pages for new page tables
-- are not taken.
use skylight.Base.{
  ℕ, zero, suc, ◌+◌, ◌&&◌, List, [], ◌∷◌, ◌++◌, Option, none, some, false, leb, ltb, if◌then◌else◌,
}
use skylight.Linked.{null, node, Nodes}
use skylight.Heap.{Segment, segment, Heap, Call, map_page, memcpy, memset, malloc}
use skylight.Pmm.{Pmm}
use skylight.Pmm.Pages.{pmm_alloc_page}
use skylight.Pmm.Lock.{PoolHeap}

abbrev pub pages_mapped : List Call → ℕ
pages_mapped [] = 0
pages_mapped (map_page virt ∷ log) = suc (pages_mapped log)
pages_mapped (memcpy dest src count ∷ log) = pages_mapped log
pages_mapped (memset dest value count ∷ log) = pages_mapped log

-- A page from the allocator for each one that was mapped.
unfoldable pub take_pages : ℕ → Pmm → Option Pmm
take_pages zero m = some m
take_pages (suc n) m = elim (pmm_alloc_page m) [ none ↦ none | some (page, m') ↦ take_pages n m' ]

abbrev pub with_pages :
    (old : List Call) → (address : ℕ) → Heap → Option Pmm → Option (ℕ × Heap × Pmm)
with_pages old address h none = none
with_pages old address h (some m) = some (address, record h { calls = h.calls ++ old }, m)

unfoldable pub malloc_pages : (rounds tries size : ℕ) → Heap → Pmm → Option (ℕ × Heap × Pmm)
unfolding take_pages
malloc_pages rounds tries size h m = elim (malloc rounds tries size (record h { calls = [] })) [
  | none ↦ none
  | some (address, h') ↦ with_pages h.calls address h' (take_pages (pages_mapped h'.calls) m)
]

-- The headers in a stretch of memory that is cleared.
abbrev pub clear_headers : (address bytes : ℕ) → Nodes Segment → Nodes Segment
clear_headers address bytes headers p =
    let in_range = leb address p && ltb p (address + bytes) in
    elim (headers p) [
      | none ↦ none
      | some n ↦ if in_range then some (node null null (segment 0 false)) else some n
    ]

-- `word` is what the memory of a new record holds.
abbrev pub kernel_heap : (rounds tries word : ℕ) → PoolHeap Heap
kernel_heap rounds tries word = record {
  malloc = λ size h m. malloc_pages rounds tries size h m;
  clear = λ address bytes h. record h {
    headers = clear_headers address bytes h.headers;
    calls = memset address 0 bytes ∷ h.calls;
  };
  word = λ address h. word;
}
