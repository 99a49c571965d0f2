-- ===== src/Pmm.antt =====
-- The page allocator, kernel/src/mem/pmm/pmm.c and pfa.c: sections of memory in the order of their
-- addresses. The doubly linked list is a list; `none` is an access through a null pointer. Each
-- section carries the slot of the table of sections that it stands in.
pub mod Pages
pub mod Freeing
pub mod Lock
pub mod Realloc
pub mod Start
pub mod Built
pub mod Added
pub mod FromMap
pub mod Room
pub mod Take
pub mod View
pub mod Recombine
pub mod Outcome
pub mod Alloc
pub mod Release
pub mod Retype
pub mod Freed
pub mod Released
pub mod Locked
pub mod KernelHeap
mod Tests
use skylight.Base.{
  ℕ, zero, suc, ◌+◌, ◌-◌, ◌*◌, ◌/◌, ◌%◌, ◌^◌, Bool, true, false, ◌||◌, List, [], ◌∷◌, Option, none,
  some, ◌==◌, leb, if◌then◌else◌, add64, sub64, mul64,
}

abbrev pub paging_page_size : ℕ
paging_page_size = 0x1000

-- `PMM_SECTION_USED`, `PMM_SECTION_FREE` and `PMM_SECTION_BAD`
abbrev pub section_used : ℕ
section_used = 0

abbrev pub section_free : ℕ
section_free = 1

abbrev pub section_bad : ℕ
section_bad = 2

-- `pmm_section_t`; `free` there is `kind` here.
pub record Section : Type 0 where
  pub slot : ℕ
  pub start : ℕ
  pub pages : ℕ
  pub kind : ℕ

-- Where a section ends, on 64-bit words.
abbrev pub end_of_section : Section → ℕ
end_of_section s = add64 s.start (mul64 s.pages paging_page_size)

-- `_pmm_section_head` and `pmm_data_size`
pub record Table : Type 0 where
  pub head : ℕ
  pub data_size : ℕ

-- `sizeof(pmm_section_t)`
abbrev pub section_size : ℕ
section_size = 40

abbrev pub slots_of : List Section → List ℕ
slots_of [] = []
slots_of (s ∷ ss) = s.slot ∷ slots_of ss

-- A slot whose section is linked to another.
abbrev pub is_linked : ℕ → List ℕ → Bool
is_linked slot [] = false
is_linked slot (s ∷ ss) = let rest = is_linked slot ss in (s == slot) || rest

-- The loop of `pmm_section_manager_reindex`, from the slot `i` on.
unfoldable pub reindex : (rounds i : ℕ) → List ℕ → ℕ
reindex zero i linked = 0
reindex (suc rounds) i linked =
    let rest = reindex rounds (suc i) linked in if is_linked i linked then rest else i

-- The number of `i` with `i * sizeof(pmm_section_t) < pmm_data_size`.
abbrev pub slot_count : Table → ℕ
slot_count t = (t.data_size + (section_size - 1)) / section_size

-- `pmm_new_section`; where it returns `NULL`, every caller writes through it.
unfoldable pub new_section : (linked : List ℕ) → Table → Option (ℕ × Table)
new_section linked t =
    if leb t.data_size (t.head * section_size)
    then none
    else if is_linked t.head linked
    then (let head = reindex (slot_count t) 0 linked in
        if is_linked head linked then none else some (head, record t { head = head + 1 }))
    else some (t.head, record t { head = t.head + 1 })

-- `current` with the pages of the section behind it, which is deleted.
abbrev pub absorb : Section → Section → Section
absorb current next = record current { pages = add64 current.pages next.pages }

-- One pass of the loop of `pmm_recombine` from `current` on, and whether it joined any sections.
unfoldable pub recombine_pass : (current : Section) → List Section → Bool × List Section
recombine_pass c [] = (false, c ∷ [])
recombine_pass c (n ∷ []) =
    if c.kind == n.kind then (true, absorb c n ∷ []) else (false, c ∷ n ∷ [])
recombine_pass c (n ∷ m ∷ rest) =
    let behind = recombine_pass m rest in
    let next = recombine_pass n (m ∷ rest) in
    if c.kind == n.kind then (true, absorb c n ∷ behind.1) else (next.0, c ∷ next.1)

-- The passes of `pmm_recombine`, until one joins nothing.
unfoldable pub pmm_recombine : (rounds : ℕ) → List Section → Option (List Section)
pmm_recombine zero sections = none
pmm_recombine (suc rounds) [] = some []
pmm_recombine (suc rounds) (s ∷ rest) =
    let (detected, joined) = recombine_pass s rest in
    let again = pmm_recombine rounds joined in if detected then again else some joined

-- `pmm_recalculate_free_memory`
unfoldable pub free_memory_of : (sum : ℕ) → List Section → ℕ
free_memory_of sum [] = sum
free_memory_of sum (s ∷ rest) =
    free_memory_of
      (if s.kind == section_free then add64 sum (mul64 s.pages paging_page_size) else sum) rest

-- `pmm_pool_t`
pub record Pool : Type 0 where
  pub pages : ℕ
  pub base : ℕ

-- The statics. `pools` is the list of pools, the first one first.
pub record Pmm : Type 0 where
  pub sections : List Section
  pub table : Table
  pub free_memory : ℕ
  pub allowing_allocations : Bool
  pub pools : List Pool
