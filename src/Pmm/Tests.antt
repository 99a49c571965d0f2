-- ===== src/Pmm/Tests.antt =====
-- The page allocator at concrete sections.
use skylight.Base.{ℕ, ◌≡◌, refl, inl, true, List, [], ◌∷◌, some, arith}
use skylight.Pmm.{Section, Table, Pmm, pmm_recombine, section_used, section_free, section_bad}
use skylight.Pmm.Pages.{pmm_alloc_page}
use skylight.Pmm.Freeing.{pmm_free_page}
use skylight.Pmm.View.{Tiles}
use skylight.Pmm.Recombine.{Recombined, pmm_recombine_lem}
use skylight.Pmm.Take.{WellFormed}
use skylight.Pmm.Alloc.{Allocated, pmm_alloc_page_lem}
use skylight.Pmm.Release.{Placed, Retyped}
use skylight.Pmm.Start.{Entry, build_sections}
use skylight.Pmm.FromMap.{FromMap, build_sections_lem}
use skylight.Pmm.Lock.{pmm_lock_page}
use skylight.Pmm.Locked.{pmm_lock_page-locks}
use skylight.Pmm.Released.{pmm_free_page-stuck, pmm_free_page-frees}

abbrev section : ℕ → ℕ → ℕ → ℕ → Section
section slot start pages kind = record { slot = slot; start = start; pages = pages; kind = kind }

abbrev low : Section
low = section 0 0 1 section_used

abbrev gap : Section
gap = section 1 0x1000 2 section_free

abbrev image : Section
image = section 2 0x3000 3 section_used

abbrev device : Section
device = section 3 0x6000 1 section_bad

abbrev sections : List Section
sections = low ∷ gap ∷ image ∷ device ∷ []

abbrev section_table : Table
section_table = record { head = 4; data_size = 400 }

abbrev with_sections : List Section → Pmm
with_sections l = record {
  sections = l;
  table = section_table;
  free_memory = 0x2000;
  allowing_allocations = true;
  pools = [];
}

abbrev memory : Pmm
memory = with_sections sections

abbrev alike : List Section
alike = low ∷ section 1 0x1000 2 section_used ∷ image ∷ device ∷ []

alike-Tiles : Tiles 0 alike
alike-Tiles = (refl, omega arith, (refl, omega arith, (refl, omega arith, (refl, omega arith, tt))))

pmm_recombine_lem_example : Recombined 0 alike (pmm_recombine 5 alike)
pmm_recombine_lem_example = pmm_recombine_lem 5 0 alike alike-Tiles (omega arith)

sections-Tiles : Tiles 0 sections
sections-Tiles =
    (refl, omega arith, (refl, omega arith, (refl, omega arith, (refl, omega arith, tt))))

memory-WellFormed : WellFormed 0 sections section_table
memory-WellFormed = (
  sections-Tiles,
  (omega arith, omega arith, (omega arith, omega arith)),
  (omega arith, (omega arith, (omega arith, (omega arith, tt)))),
)

pmm_alloc_page_lem_example : Allocated 0 memory (pmm_alloc_page memory)
pmm_alloc_page_lem_example = pmm_alloc_page_lem 0 memory refl memory-WellFormed (omega arith)

image-Placed : Placed 5 0 (low ∷ []) gap image (device ∷ []) section_table
image-Placed = record {
  tiles = sections-Tiles;
  full = (omega arith, (omega arith, tt));
  low = memory-WellFormed.2;
  enough = omega arith;
}

pmm_free_page-frees_example : Retyped section_free 0 memory 0x3000 (pmm_free_page 5 0x3000 memory)
pmm_free_page-frees_example =
    pmm_free_page-frees 5 0 memory (low ∷ []) gap image device [] refl refl image-Placed
      (omega arith) (inl (omega arith)) (omega arith)

abbrev page : Section
page = section 2 0x3000 1 section_used

abbrev roof : Section
roof = section 3 0x4000 1 section_bad

abbrev pinched : Pmm
pinched = with_sections (low ∷ gap ∷ page ∷ roof ∷ [])

page-Placed : Placed 5 0 (low ∷ []) gap page (roof ∷ []) section_table
page-Placed = record {
  tiles = (refl, omega arith, (refl, omega arith, (refl, omega arith, (refl, omega arith, tt))));
  full = (omega arith, (omega arith, tt));
  low = memory-WellFormed.2;
  enough = omega arith;
}

pmm_free_page-stuck_example : pmm_free_page 5 0x3000 pinched ≡ some pinched
pmm_free_page-stuck_example =
    pmm_free_page-stuck 5 0 pinched (low ∷ []) gap page roof [] refl refl page-Placed (omega arith)
      refl (inl refl)

abbrev entry : ℕ → ℕ → ℕ → Entry
entry base length signal = record { base = base; length = length; signal = signal }

abbrev first_entry : Entry
first_entry = entry 0 0x100000 3

-- A free entry and, behind a gap, a used one.
abbrev entries_behind : List Entry
entries_behind = entry 0x100000 0x4000 0 ∷ entry 0x106000 0x1000 1 ∷ []

abbrev fresh_table : Table
fresh_table = record { head = 1; data_size = 400 }

build_sections_lem_example :
    FromMap entries_behind (build_sections 6 (first_entry ∷ entries_behind) fresh_table)
build_sections_lem_example =
    build_sections_lem 6 first_entry entries_behind fresh_table refl
      (
        omega arith,
        omega arith,
        refl,
        refl,
        omega arith,
        (omega arith, omega arith, refl, refl, omega arith, tt),
      )
      (omega arith) (omega arith) (omega arith)

-- The page at the start of the gap is locked.
abbrev image_before : Section
image_before = section 1 0x1000 2 section_used

abbrev gap_after : Section
gap_after = section 2 0x3000 3 section_free

abbrev sections_after : List Section
sections_after = low ∷ image_before ∷ gap_after ∷ device ∷ []

gap-Placed : Placed 5 0 (low ∷ []) image_before gap_after (device ∷ []) section_table
gap-Placed = record {
  tiles = (refl, omega arith, (refl, omega arith, (refl, omega arith, (refl, omega arith, tt))));
  full = (omega arith, (omega arith, tt));
  low = memory-WellFormed.2;
  enough = omega arith;
}

pmm_lock_page-locks_example :
    Retyped section_used 0
      (with_sections sections_after)
      0x3000
      (pmm_lock_page 5 0x3000 (with_sections sections_after))
pmm_lock_page-locks_example =
    pmm_lock_page-locks 5 0 (with_sections sections_after) (low ∷ []) image_before gap_after device
      [] refl refl gap-Placed (inl (omega arith, omega arith)) (omega arith)
