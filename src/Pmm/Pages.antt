-- ===== src/Pmm/Pages.antt =====
-- `pmm_section_split` and `pmm_alloc_page` of kernel/src/mem/pmm/pfa.c. The walk carries the section
-- before the selected one and the slots of the sections before that.
use skylight.Base.{
  ℕ, ◌/◌, not, ◌||◌, List, [], ◌∷◌, ◌++◌, Option, none, some, ◌==◌, leb, if◌then◌else◌, add64,
  sub64,
}
use skylight.Pmm.{
  Section, Table, Pmm, paging_page_size, section_used, section_free, end_of_section, slots_of,
  new_section,
}

-- `pmm_section_split`: the section and, where it is split, the new one behind it.
unfoldable pub split :
    (linked : List ℕ) → Section → (split_at : ℕ) → Table → Option (List Section × Table)
split linked s split_at t =
    if leb (end_of_section s) split_at then some (s ∷ [], t) else elim (new_section linked t) [
      | none ↦ none
      | some (slot, t') ↦ some (
        record s { pages = sub64 s.pages (sub64 (end_of_section s) split_at / paging_page_size) }
            ∷ record {
              slot = slot;
              start = split_at;
              pages = sub64 s.pages (sub64 split_at s.start / paging_page_size);
              kind = s.kind;
            }
            ∷ [],
        t',
      )
    ]

-- The kind of the section that was split is set.
abbrev pub mark : ℕ → List Section → List Section
mark kind [] = []
mark kind (s ∷ rest) = record s { kind = kind } ∷ rest

-- `pmm_section_split` of the first page, which becomes of another kind.
unfoldable pub split_first :
    (linked : List ℕ) → Section → (kind : ℕ) → Table → Option (List Section × Table)
split_first linked s kind t = elim (split linked s (add64 s.start paging_page_size) t) [
  | none ↦ none
  | some (parts, t') ↦ some (mark kind parts, t')
]

-- The section `p` takes over the first page of the section `s` behind it.
abbrev pub give_first : Section → Section → List Section
give_first p s =
    record p { pages = add64 p.pages 1 }
    ∷ record s { start = add64 s.start paging_page_size; pages = sub64 s.pages 1 }
    ∷ []

-- The first page of `s` behind `p` becomes of the kind: `p` takes it over, or `s` is split.
unfoldable pub retype_first :
    (kind : ℕ) → (linked : List ℕ) → (p s : Section) → Table → Option (List Section × Table)
retype_first kind linked p s t =
    if p.kind == kind then some (give_first p s, t) else elim (split_first linked s kind t) [
      | none ↦ none
      | some (parts, t') ↦ some (p ∷ parts, t')
    ]

-- The address returned, the sections from `p` on and the table.
abbrev pub Taken : Type 0
Taken = ℕ × List Section × Table

abbrev pub behind : Section → Option Taken → Option Taken
behind p none = none
behind p (some (base, sections, t)) = some (base, p ∷ sections, t)

abbrev pub before_rest : ℕ → List Section → Option (List Section × Table) → Option Taken
before_rest base rest none = none
before_rest base rest (some (parts, t)) = some (base, parts ++ rest, t)

-- A section without pages is unlinked, which needs one behind it.
abbrev pub unlinked : List Section → Option Taken → Option Taken
unlinked [] taken = none
unlinked (n ∷ rest) taken = taken

-- The loop of `pmm_alloc_page` behind the section `p`.
unfoldable pub alloc_from : (before : List ℕ) → (p : Section) → List Section → Table → Option Taken
alloc_from before p [] t = some (0, p ∷ [], t)
alloc_from before p (s ∷ rest) t =
    let without = alloc_from before p rest t in
    let next = alloc_from (p.slot ∷ before) s rest t in
    let linked = before ++ slots_of (p ∷ s ∷ rest) in
    if s.pages == 0
    then unlinked rest without
    else if s.kind == section_free
    then before_rest s.start rest (retype_first section_used linked p s t)
    else behind p next

-- The first section has none before it.
unfoldable pub alloc_sections : List Section → Table → Option Taken
alloc_sections [] t = some (0, [], t)
alloc_sections (s ∷ rest) t =
    if (s.pages == 0) || (s.kind == section_free) then none else alloc_from [] s rest t

abbrev pub taken_from : Pmm → Option Taken → Option (ℕ × Pmm)
taken_from m none = none
taken_from m (some (base, sections, t)) = some (
  base,
  record m {
    sections = sections;
    table = t;
    free_memory = if base == 0 then m.free_memory else sub64 m.free_memory paging_page_size;
  },
)

unfoldable pub pmm_alloc_page : Pmm → Option (ℕ × Pmm)
pmm_alloc_page m =
    if not m.allowing_allocations
    then some (0, m)
    else taken_from m (alloc_sections m.sections m.table)
