-- ===== src/Pmm/Start.antt =====
-- `pmm_start` of kernel/src/mem/pmm/pmm.c: the sections made from the memory map.
use skylight.Base.{
  ℕ, ◌+◌, ◌*◌, ◌/◌, ◌%◌, true, ◌&&◌, List, [], ◌∷◌, Option, none, some, ◌==◌, leb, if◌then◌else◌,
  add64, sub64, mul64, length,
}
use skylight.Pmm.{
  Section, Table, Pmm, paging_page_size, section_used, section_free, section_bad, slots_of,
  end_of_section, new_section, pmm_recombine, free_memory_of,
}
use skylight.Pmm.Lock.{pmm_lock_pages}

-- `MEMORY_MAP_FREE` and `MEMORY_MAP_BUSY`
abbrev pub memory_map_free : ℕ
memory_map_free = 0

abbrev pub memory_map_busy : ℕ
memory_map_busy = 1

-- `memory_map_entry_t`
pub record Entry : Type 0 where
  pub base : ℕ
  pub length : ℕ
  pub signal : ℕ

unfoldable pub pmm_interpret_signal : ℕ → ℕ
pmm_interpret_signal signal =
    if signal == memory_map_busy
    then section_used
    else if signal == memory_map_free
    then section_free
    else section_bad

-- The pages of a length, rounded up.
abbrev pub pages_of : ℕ → ℕ
pages_of length = length / paging_page_size + (if length % paging_page_size == 0 then 0 else 1)

-- The slots of the sections made so far, latest first; a section alone has no links.
abbrev pub linked_slots : (current : Section) → List Section → List ℕ
linked_slots current [] = []
linked_slots current (p ∷ before) = current.slot ∷ slots_of (p ∷ before)

-- The section of an entry behind `current`.
abbrev pub entry_section : (slot : ℕ) → Entry → Section
entry_section slot e = record {
  slot = slot;
  start = e.base;
  pages = pages_of e.length;
  kind = pmm_interpret_signal e.signal;
}

-- The section of the gap between `current` and the `next` one.
abbrev pub gap_section : (slot : ℕ) → (current next : Section) → Section
gap_section slot current next = record {
  slot = slot;
  start = end_of_section current;
  pages = pages_of (sub64 next.start (end_of_section current));
  kind = section_bad;
}

-- One round of the loop over the memory map, on the sections latest first.
unfoldable pub add_entry :
    Entry → (current : Section) → List Section → Table → Option (Section × List Section × Table)
add_entry e current before t =
    if e.base == current.start
    then some (current, before, t)
    else elim (new_section (linked_slots current before) t) [
      | none ↦ none
      | some (slot, t') ↦
          let next = entry_section slot e in
          if end_of_section current == next.start
          then some (next, current ∷ before, t')
          else elim (new_section (slot ∷ current.slot ∷ slots_of before) t') [
            | none ↦ none
            | some (gap, t'') ↦ some (next, gap_section gap current next ∷ current ∷ before, t'')
          ]
    ]

-- The loop over the memory map.
unfoldable pub add_entries :
    List Entry
    → (current : Section) → List Section
    → Table
    → Option (Section × List Section × Table)
add_entries [] current before t = some (current, before, t)
add_entries (e ∷ entries) current before t = elim (add_entry e current before t) [
  | none ↦ none
  | some (current', before', t') ↦ add_entries entries current' before' t'
]

-- The links from the first section on.
abbrev pub forwards : List Section → List Section → List Section
forwards [] after = after
forwards (s ∷ before) after = forwards before (s ∷ after)

unfoldable pub count_free : (sum : ℕ) → List Entry → ℕ
count_free sum [] = sum
count_free sum (e ∷ entries) =
    count_free (if e.signal == memory_map_free then add64 sum e.length else sum) entries

abbrev pub round_off : ℕ
round_off = 64 * (1024 * 1024)

-- `pmm_data_size`, a 64th of the free memory in units of 64 MiB, rounded up.
abbrev pub data_size_of : (free_memory : ℕ) → ℕ
data_size_of free_memory =
    mul64 (free_memory / round_off + (if free_memory % round_off == 0 then 0 else 1)) round_off / 64

-- The first free entry with room for the table of sections.
unfoldable pub find_room : (size : ℕ) → List Entry → Option ℕ
find_room size [] = none
find_room size (e ∷ entries) =
    let next = find_room size entries in
    if (e.signal == memory_map_free) && leb size e.length then some e.base else next

-- The first mebibyte.
abbrev pub first_section : Section
first_section = record {
  slot = 0;
  start = 0;
  pages = 1024 * 1024 / paging_page_size;
  kind = section_bad;
}

-- The sections made from the memory map, joined.
unfoldable pub build_sections : (rounds : ℕ) → List Entry → Table → Option (List Section × Table)
build_sections rounds entries t = elim (add_entries entries first_section [] t) [
  | none ↦ none
  | some (current, before, t') ↦ elim (pmm_recombine rounds (forwards (current ∷ before) [])) [
    | none ↦ none
    | some sections ↦ some (sections, t')
  ]
]

abbrev pub free_from : Pmm → List Section → Table → Pmm
free_from m sections t = record m {
  sections = sections;
  table = t;
  free_memory = free_memory_of 0 sections;
  allowing_allocations = true;
}

unfoldable pub pmm_start : (rounds : ℕ) → List Entry → Pmm → Option Pmm
pmm_start rounds entries m =
    let size = data_size_of (count_free 0 entries) in
    if m.allowing_allocations then some m else elim (find_room size entries) [
      | none ↦ none
      | some place ↦ elim (build_sections rounds entries (record { head = 1; data_size = size })) [
        | none ↦ none
        | some (sections, t) ↦ pmm_lock_pages rounds place (pages_of size) (free_from m sections t)
      ]
    ]
