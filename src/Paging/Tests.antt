-- ===== src/Paging/Tests.antt =====
-- Page tables at concrete addresses.
use skylight.Base.{ℕ, ◌≡◌, refl, true, false, some, [], ◌∷◌, ◌==◌, ◌&&◌, if◌then◌else◌, arith}
use skylight.Pmm.{Pmm, Section, section_used, section_free, section_bad}
use skylight.Pmm.Take.{WellFormed}
use skylight.Paging.Calls.{pmap, Given, pmap_lem}
use skylight.Paging.{
  Paging, indexer_assign, is_present, get_address, next_table, last_table, paging_map_page,
  paging_unmap_page, paging_remap_page, paging_load_pml4,
}
use skylight.Paging.Walk.{uses_above}
use skylight.Paging.Map.{Mapped, paging_map_page_lem}
use skylight.Paging.Unmap.{Unmapped, paging_unmap_page_lem}
use skylight.Paging.Remap.{Remapped, paging_remap_page_lem}

abbrev no_memory : Pmm
no_memory = record {
  sections = [];
  table = record { head = 0; data_size = 0 };
  free_memory = 0;
  allowing_allocations = false;
  pools = [];
}

-- Page 0 is mapped to the frame 0x9000, page 1 is not.
abbrev entries : ℕ → ℕ → ℕ
entries table index =
    if (table == 0x1000) && (index == 0)
    then 0x2003
    else if (table == 0x2000) && (index == 0)
    then 0x3003
    else if (table == 0x3000) && (index == 0)
    then 0x4003
    else if (table == 0x4000) && (index == 0)
    then 0x9003
    else 0

abbrev small : Paging
small = record { pml4 = 0x1000; tables = entries; memory = no_memory; invalidated = [] }

last_table-first : last_table small (indexer_assign 0) ≡ some 0x4000
unfolding last_table next_table is_present get_address indexer_assign
last_table-first = refl

last_table-second : last_table small (indexer_assign 0x1000) ≡ some 0x4000
unfolding last_table next_table is_present get_address indexer_assign
last_table-second = refl

second-empty : small.tables 0x4000 (indexer_assign 0x1000).pml1 ≡ 0
unfolding indexer_assign
second-empty = refl

first-unused : uses_above small (indexer_assign 0) 0x4000 (indexer_assign 0).pml1 ≡ false
unfolding next_table is_present get_address indexer_assign
first-unused = refl

second-unused : uses_above small (indexer_assign 0x1000) 0x4000 (indexer_assign 0).pml1 ≡ false
unfolding next_table is_present get_address indexer_assign
second-unused = refl

paging_map_page_lem_example :
    Mapped 0x1000 0xa000 0x4000 small (paging_map_page 1 0x1000 0xa000 3 small)
paging_map_page_lem_example =
    paging_map_page_lem 0 0x1000 0xa000 3 0x4000 small last_table-second second-empty

paging_unmap_page_lem_example : Unmapped 0 0x4000 small (paging_unmap_page 0 small)
paging_unmap_page_lem_example = paging_unmap_page_lem small 0 0x4000 last_table-first first-unused

paging_remap_page_lem_example :
    Remapped true 0 0x1000 small (paging_remap_page 1 true 0 0x1000 small)
paging_remap_page_lem_example =
    paging_remap_page_lem 0 true 0 0x1000 0x4000 0x4000 small last_table-first last_table-second
      second-unused second-empty

-- A free section between two others.
abbrev section : ℕ → ℕ → ℕ → ℕ → Section
section slot start pages kind = record { slot = slot; start = start; pages = pages; kind = kind }

abbrev some_memory : Pmm
some_memory = record no_memory {
  sections =
      section 0 0 16 section_used
      ∷ section 1 0x10000 2 section_free
      ∷ section 2 0x12000 1 section_bad
      ∷ [];
  table = record { head = 3; data_size = 400 };
  allowing_allocations = true;
}

some_memory-WellFormed : WellFormed 0 some_memory.sections some_memory.table
some_memory-WellFormed = (
  (refl, omega arith, (refl, omega arith, (refl, omega arith, tt))),
  (omega arith, omega arith, (omega arith, omega arith)),
  (omega arith, (omega arith, (omega arith, tt))),
)

-- The kernel's own table is empty.
abbrev calling : Paging
calling = record small { pml4 = 0x8000; memory = some_memory }

calling-second : last_table (paging_load_pml4 0x1000 calling) (indexer_assign 0x1000) ≡ some 0x4000
unfolding paging_load_pml4 last_table next_table is_present get_address indexer_assign
calling-second = refl

pmap_lem_example : Given 0 0x1000 0x1000 calling (pmap 1 0x1000 0x1000 calling)
pmap_lem_example =
    pmap_lem 0 0 0x1000 0x1000 0x4000 calling refl some_memory-WellFormed (omega arith)
      (omega arith) calling-second second-empty
