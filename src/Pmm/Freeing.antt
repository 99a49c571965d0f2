-- ===== src/Pmm/Freeing.antt =====
-- `pmm_section_combine_next`, `pmm_section_combine_prev` and `pmm_free_page` of
-- kernel/src/mem/pmm/pfa.c. The walk carries the section before the selected one, `front`, which is
-- empty at the first section, and the slots of the sections before that.
use skylight.Base.{
  ℕ, zero, suc, Bool, true, false, not, ◌&&◌, List, [], ◌∷◌, ◌++◌, Option, none, some, ◌==◌, ltb,
  if◌then◌else◌, add64, sub64,
}
use skylight.Pmm.{Section, Table, Pmm, paging_page_size, section_free, slots_of}
use skylight.Pmm.Pages.{retype_first, split, split_first}

-- Whether the function returned inside the loop, the sections and the table.
abbrev pub Walked : Type 0
Walked = Bool × List Section × Table

abbrev pub ahead : List Section → Option Walked → Option Walked
ahead front none = none
ahead front (some (returned, sections, t)) = some (returned, front ++ sections, t)

abbrev pub returned_with :
    List Section → List Section → Option (List Section × Table) → Option Walked
returned_with front rest none = none
returned_with front rest (some (parts, t)) = some (true, front ++ (parts ++ rest), t)

-- `pmm_section_combine_next`, where the section has another before it or has none.
unfoldable pub combine_next : (has_prev : Bool) → Section → List Section → Option (List Section)
combine_next has_prev s [] = some (s ∷ [])
combine_next has_prev s (n ∷ rest) =
    if not (s.kind == n.kind)
    then some (s ∷ n ∷ rest)
    else if has_prev
    then some (record n { start = s.start; pages = add64 n.pages s.pages } ∷ rest)
    else none

-- `pmm_section_combine_prev` of `s` behind `p`.
unfoldable pub combine_prev : (p s : Section) → List Section → Option (List Section)
combine_prev p s rest =
    if not (s.kind == p.kind)
    then some (p ∷ s ∷ rest)
    else elim rest [ [] ↦ none | n ∷ r ↦ some (record p { pages = add64 p.pages s.pages } ∷ n ∷ r) ]

abbrev pub stop : Table → Option (List Section) → Option Walked
stop t none = none
stop t (some sections) = some (true, sections, t)

-- `pmm_section_combine_next` of a section and then of the section `p` before it.
unfoldable pub combine_both :
    (has_prev : Bool) → (p s : Section) → List Section → Option (List Section)
combine_both has_prev p s rest = elim (combine_next true s rest) [
  | none ↦ none
  | some joined ↦ combine_next has_prev p joined
]

abbrev pub is_inner : List ℕ → Bool
is_inner [] = false
is_inner (slot ∷ slots) = true

abbrev pub onto : Section → Option (List Section) → Option (List Section)
onto p none = none
onto p (some sections) = some (p ∷ sections)

-- A section of one page behind `p` is freed.
unfoldable pub free_single :
    (before : List ℕ) → (p s : Section) → List Section → Option (List Section)
free_single before p s [] = none
free_single before p s (n ∷ rest) =
    if (p.kind == section_free) && (n.kind == section_free)
    then combine_both (is_inner before) p s (n ∷ rest)
    else if p.kind == section_free
    then combine_prev p s (n ∷ rest)
    else if n.kind == section_free
    then onto p (combine_next true s (n ∷ rest))
    else some (p ∷ record s { kind = section_free } ∷ n ∷ rest)

-- A page at the start of the selected section.
unfoldable pub free_start :
    (before : List ℕ) → (front : List Section) → Section → List Section → Table → Option Walked
free_start before front s rest t =
    let linked = before ++ slots_of (front ++ s ∷ rest) in
    if s.kind == section_free then some (true, front ++ s ∷ rest, t) else elim front [
      | [] ↦ none
      | p ∷ _ ↦
          if s.pages == 1
          then stop t (free_single before p s rest)
          else returned_with [] rest (retype_first section_free linked p s t)
    ]

abbrev pub before_part : Section → Option (List Section × Table) → Option (List Section × Table)
before_part a none = none
before_part a (some (parts, t)) = some (a ∷ parts, t)

abbrev pub with_rest : List Section → Option (List Section × Table) → Option (List Section × Table)
with_rest rest none = none
with_rest rest (some (parts, t)) = some (parts ++ rest, t)

-- The second section keeps its first page, which becomes free.
abbrev pub free_second : (linked : List ℕ) → List Section → Table → Option (List Section × Table)
free_second linked [] t = none
free_second linked (a ∷ []) t = none
free_second linked (a ∷ b ∷ rest) t =
    before_part a (with_rest rest (split_first (b.slot ∷ linked) b section_free t))

-- The page at the end of `s` is freed where the section behind it is not free: `s` is split, and
-- the section that is then behind it is split again and marked. That is the new one, or the next
-- one where `s` was not split.
unfoldable pub free_last :
    (linked : List ℕ)
    → Section
    → (page : ℕ) → (rest : List Section) → Table
    → Option (List Section × Table)
free_last linked s page rest t = elim (split linked s page t) [
  | none ↦ none
  | some (parts, t') ↦ free_second linked (parts ++ rest) t'
]

abbrev pub lies_inside : ℕ → Section → Section → Bool
lies_inside page s n = ltb s.start page && ltb page n.start

abbrev pub is_last : ℕ → Section → Bool
is_last page n = sub64 n.start paging_page_size == page

-- The rest of the loop, where the second section is the selected one.
abbrev pub walk_on :
    (List ℕ → Section → List Section → Table → Option Walked)
    → (before : List ℕ) → List Section × Table
    → Option Walked
walk_on go before ([], t) = none
walk_on go before (a ∷ [], t) = none
walk_on go before (a ∷ b ∷ rest, t) = ahead (a ∷ []) (go (before ++ a.slot ∷ []) b rest t)

-- The loop of `pmm_free_page`, from the section behind `front` on.
unfoldable pub free_walk :
    (rounds : ℕ)
    → (before : List ℕ) → (front : List Section) → List Section
    → (page : ℕ) → Table
    → Option Walked
free_walk zero before front sections page t = none
free_walk (suc rounds) before front [] page t = some (false, front, t)
free_walk (suc rounds) before front (s ∷ []) page t =
    if s.start == page
    then free_start before front s [] t
    else if ltb s.start page
    then none
    else some (false, front ++ s ∷ [], t)
free_walk (suc rounds) before front (s ∷ n ∷ rest) page t =
    let passed = before ++ slots_of front in
    let next = free_walk rounds passed (s ∷ []) (n ∷ rest) page t in
    let new : Option Walked =
      elim (free_last (passed ++ slots_of (s ∷ n ∷ rest)) s page (n ∷ rest) t) [
        | none ↦ none
        | some parts ↦ walk_on (λ b p cs t'. free_walk rounds b (p ∷ []) cs page t') passed parts
      ] in
    if s.start == page
    then free_start before front s (n ∷ rest) t
    else if not (lies_inside page s n)
    then ahead front next
    else if s.kind == section_free
    then some (true, front ++ s ∷ n ∷ rest, t)
    else if not (is_last page n)
    then ahead front next
    else if n.kind == section_free
    then ahead front (
        free_start passed (record s { pages = sub64 s.pages 1 } ∷ [])
          (record n { start = sub64 n.start paging_page_size; pages = add64 n.pages 1 }) rest t)
    else ahead front new

abbrev pub freed_from : Pmm → Option Walked → Option Pmm
freed_from m none = none
freed_from m (some (returned, sections, t)) = some (record m {
  sections = sections;
  table = t;
  free_memory = if returned then m.free_memory else add64 m.free_memory paging_page_size;
})

-- `pmm_free_page`; `rounds` bounds the sections that are selected.
unfoldable pub pmm_free_page : (rounds page : ℕ) → Pmm → Option Pmm
pmm_free_page rounds page m =
    if not m.allowing_allocations
    then some m
    else freed_from m (free_walk rounds [] [] m.sections page m.table)
