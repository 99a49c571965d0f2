-- ===== src/Paging/Calls.antt =====
-- The system calls pmap and punmap, kernel/src/proc/calls/handlers/pmap.c and punmap.c.
use skylight.Base.{
  ℕ, suc, ◌*◌, ◌<◌, ◌≡◌, refl, arith, ◌∙◌, ap, sym, true, Option, none, some, ◌==◌, if◌then◌else◌,
  ==_of_ne, pure, ◌>>◌,
}
use mathlib.Core.Path.{subst}
use skylight.Pmm.{Pmm, section_size}
use skylight.Pmm.Pages.{pmm_alloc_page}
use skylight.Pmm.Take.{WellFormed}
use skylight.Pmm.Outcome.{Outcome}
use skylight.Pmm.Alloc.{pmm_alloc_page_lem}
use skylight.Paging.{
  Paging, PagingCmd, indexer_assign, address_bits, last_table, kernel_page, paging_map_page,
  paging_walk_page, paging_unmap_page, paging_load_pml4,
}
use skylight.Paging.Map.{paging_map_page_lem}

-- `PAGING_FLAGS_USER_PAGE`
abbrev pub user_page : ℕ
user_page = 7

-- The kernel's table is loaded again.
abbrev pub restored : (kpml4 : ℕ) → Option (ℕ × Paging) → Option (ℕ × Paging)
restored kpml4 none = none
restored kpml4 (some (address, s)) = some (address, paging_load_pml4 kpml4 s)

-- `cr3` is the table of the calling process.
unfoldable pub pmap : (rounds cr3 virt : ℕ) → PagingCmd ℕ
pmap rounds cr3 virt s = elim (pmm_alloc_page s.memory) [
  | none ↦ none
  | some (phys, memory) ↦
      let page = if virt == 0 then phys else virt in
      restored s.pml4 (
        paging_map_page rounds page phys user_page
          (paging_load_pml4 cr3 (record s { memory = memory })))
]

unfoldable pub punmap : (rounds virt : ℕ) → PagingCmd (Unit {0})
punmap rounds virt s =
    let phys = paging_walk_page virt s in
    if virt == 0
    then some (tt, s)
    else (paging_map_page rounds phys phys kernel_page >> pure tt) (paging_unmap_page virt s)

-- The page is mapped for the process, to the page that was allocated.
abbrev pub Given : (a cr3 virt : ℕ) → Paging → Option (ℕ × Paging) → Type 0
Given a cr3 virt s o =
    (base : ℕ) × (s' : Paging) × (o ≡ some (virt, s'))
    × (s'.pml4 ≡ s.pml4)
    × (paging_walk_page virt (paging_load_pml4 cr3 s') ≡ address_bits base)
    × WellFormed a s'.memory.sections s'.memory.table
    × Outcome s.memory.sections base s'.memory.sections

last_table-memory :
    (s : Paging) (memory : Pmm) (cr3 virt : ℕ)
    → last_table (paging_load_pml4 cr3 (record s { memory = memory })) (indexer_assign virt)
      ≡ last_table (paging_load_pml4 cr3 s) (indexer_assign virt)
unfolding last_table paging_load_pml4
last_table-memory s memory cr3 virt = refl

-- Loading the table of the process again behind the kernel's.
walk-reloaded :
    (t : Paging) (kpml4 cr3 virt : ℕ)
    → t.pml4 ≡ cr3
    → paging_walk_page virt (paging_load_pml4 cr3 (paging_load_pml4 kpml4 t))
      ≡ paging_walk_page virt t
unfolding paging_load_pml4
walk-reloaded t kpml4 cr3 virt top =
    ap (λ p. paging_walk_page virt (record t { pml4 = p })) (sym top)

-- Where the page allocator is as `pmm_alloc_page` requires and has a slot left, the three tables
-- on the way of `virt`, which is not 0, are present in the table of the calling process, and its
-- entry in the last one is 0, `pmap` returns `virt` with the kernel's table loaded again; in the
-- table of the process, `virt` then leads to the lowest page of free memory, which is used from
-- then on, or to page 0 if no memory is free. The sections stay as required.
pub pmap_lem :
    (rounds a cr3 virt pt : ℕ) (s : Paging)
    → s.memory.allowing_allocations ≡ true
    → WellFormed a s.memory.sections s.memory.table
    → s.memory.table.head * section_size < s.memory.table.data_size
    → 0 < virt
    → last_table (paging_load_pml4 cr3 s) (indexer_assign virt) ≡ some pt
    → s.tables pt (indexer_assign virt).pml1 ≡ 0
    → Given a cr3 virt s (pmap (suc rounds) cr3 virt s)
unfolding pmap paging_load_pml4
pmap_lem rounds a cr3 virt pt s allowing good fits positive leads empty =
    let (base, m', allocated, good', outcome, count) =
      pmm_alloc_page_lem a s.memory allowing good fits in
    let s1 = paging_load_pml4 cr3 (record s { memory = m' }) in
    let (t, ran, walked, others, memory, top) =
      paging_map_page_lem rounds virt base user_page pt s1 (last_table-memory s m' cr3 virt ∙ leads)
        empty in
    rw (pmap, allocated, ==_of_ne virt 0 (omega arith), ran)
      (
        base,
        paging_load_pml4 s.pml4 t,
        refl,
        refl,
        walk-reloaded t s.pml4 cr3 virt top ∙ walked,
        subst (λ m. WellFormed a m.sections m.table) (sym memory) good',
        subst (λ m. Outcome s.memory.sections base m.sections) (sym memory) outcome,
      )
