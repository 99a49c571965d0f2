-- ===== src/Pmm/Lock.antt =====
-- `pmm_lock_page`, `pmm_lock_pages`, `pmm_unlock_page`, `pmm_unlock_pages` and the pools of
-- kernel/src/mem/pmm/pfa.c.
use skylight.Base.{
  ℕ, zero, suc, ◌+◌, Bool, true, false, not, ◌&&◌, ◌||◌, List, [], ◌∷◌, ◌++◌, Option, none, some,
  ◌==◌, ltb, leb, if◌then◌else◌, add64, sub64, mul64,
}
use skylight.Pmm.{
  Section, Table, Pool, Pmm, paging_page_size, section_used, section_free, slots_of, pmm_recombine,
}
use skylight.Pmm.Pages.{split, split_first, mark, retype_first}
use skylight.Pmm.Freeing.{
  Walked, ahead, returned_with, stop, onto, is_inner, before_part, with_rest, combine_next,
  combine_prev, combine_both, lies_inside, is_last, walk_on, pmm_free_page,
}

-- A section of one page behind `p`, which has just become used.
unfoldable pub lock_single :
    (before : List ℕ) → (p s : Section) → List Section → Option (List Section)
lock_single before p s [] = none
lock_single before p s (n ∷ rest) =
    if (p.kind == section_used) && (n.kind == section_used)
    then combine_both (is_inner before) p s (n ∷ rest)
    else if p.kind == section_used
    then combine_prev p s (n ∷ rest)
    else if n.kind == section_used
    then onto p (combine_next true s (n ∷ rest))
    else some (p ∷ s ∷ n ∷ rest)

-- A page at the start of the selected section.
unfoldable pub lock_start :
    (before : List ℕ) → (front : List Section) → Section → List Section → Table → Option Walked
lock_start before [] s rest t =
    if (s.kind == section_used) && not (s.pages == 1) then some (true, s ∷ rest, t) else none
lock_start before (p ∷ _) s rest t =
    if s.pages == 1
    then stop t (lock_single before p (record s { kind = section_used }) rest)
    else if s.kind == section_used
    then some (true, p ∷ s ∷ rest, t)
    else returned_with [] rest (retype_first section_used (before ++ slots_of (p ∷ s ∷ rest)) p s t)

-- The second section becomes used, or its first page, where the page is not the last of the section
-- that was split.
unfoldable pub lock_second :
    (last : Bool) → (linked : List ℕ) → List Section → Table → Option (List Section × Table)
lock_second last linked [] t = none
lock_second last linked (a ∷ []) t = none
lock_second last linked (a ∷ b ∷ rest) t =
    if last
    then some (a ∷ mark section_used (b ∷ rest), t)
    else before_part a (with_rest rest (split_first (b.slot ∷ linked) b section_used t))

-- A page behind the start of the section `s`, which is not used: the section behind `s`, once it was
-- split, is the new one, or the next one where it was not.
unfoldable pub lock_inside :
    (last : Bool)
    → (linked : List ℕ) → Section
    → (page : ℕ) → (rest : List Section) → Table
    → Option (List Section × Table)
lock_inside last linked s page rest t = elim (split linked s page t) [
  | none ↦ none
  | some (parts, t') ↦ lock_second last linked (parts ++ rest) t'
]

-- The loop of `pmm_lock_page`, from the section behind `front` on.
unfoldable pub lock_walk :
    (rounds : ℕ)
    → (before : List ℕ) → (front : List Section) → List Section
    → (page : ℕ) → Table
    → Option Walked
lock_walk zero before front sections page t = none
lock_walk (suc rounds) before front [] page t = some (false, front, t)
lock_walk (suc rounds) before front (s ∷ []) page t =
    if s.start == page
    then lock_start before front s [] t
    else if ltb s.start page
    then none
    else some (false, front ++ s ∷ [], t)
lock_walk (suc rounds) before front (s ∷ n ∷ rest) page t =
    let passed = before ++ slots_of front in
    let next = lock_walk rounds passed (s ∷ []) (n ∷ rest) page t in
    let given =
      lock_walk rounds passed (record s { pages = sub64 s.pages 1 } ∷ [])
        (record n { start = sub64 n.start paging_page_size; pages = add64 n.pages 1 } ∷ rest) page
        t in
    let new : Option Walked =
      elim (lock_inside (is_last page n) (passed ++ slots_of (s ∷ n ∷ rest)) s page (n ∷ rest) t) [
        | none ↦ none
        | some parts ↦ walk_on (λ b p cs t'. lock_walk rounds b (p ∷ []) cs page t') passed parts
      ] in
    if s.start == page
    then lock_start before front s (n ∷ rest) t
    else if not (lies_inside page s n)
    then ahead front next
    else if s.kind == section_used
    then some (true, front ++ s ∷ n ∷ rest, t)
    else if is_last page n && (n.kind == section_used)
    then ahead front given
    else ahead front new

abbrev pub locked_from : Pmm → Option Walked → Option Pmm
locked_from m none = none
locked_from m (some (returned, sections, t)) = some (record m { sections = sections; table = t })

-- `rounds` bounds the sections that are selected.
unfoldable pub pmm_lock_page : (rounds page : ℕ) → Pmm → Option Pmm
pmm_lock_page rounds page m =
    if not m.allowing_allocations
    then some m
    else locked_from m (lock_walk rounds [] [] m.sections page m.table)

-- A call for each of `count` pages from the `i`th on.
unfoldable pub for_pages : (ℕ → Pmm → Option Pmm) → (page count i : ℕ) → Pmm → Option Pmm
for_pages call page zero i m = some m
for_pages call page (suc count) i m = elim (call (add64 page (mul64 i paging_page_size)) m) [
  | none ↦ none
  | some m' ↦ for_pages call page count (i + 1) m'
]

unfoldable pub pmm_lock_pages : (rounds page count : ℕ) → Pmm → Option Pmm
pmm_lock_pages rounds page count m =
    if not m.allowing_allocations then some m else for_pages (pmm_lock_page rounds) page count 0 m

unfoldable pub pmm_unlock_page : (rounds page : ℕ) → Pmm → Option Pmm
pmm_unlock_page rounds page m =
    if not m.allowing_allocations then some m else pmm_free_page rounds page m

unfoldable pub pmm_unlock_pages : (rounds page count : ℕ) → Pmm → Option Pmm
pmm_unlock_pages rounds page count m =
    if not m.allowing_allocations then some m else for_pages (pmm_free_page rounds) page count 0 m

-- The first free section of at least so many pages.
unfoldable pub find_free : (page_count : ℕ) → List Section → Option Section
find_free page_count [] = none
find_free page_count (s ∷ rest) =
    let next = find_free page_count rest in
    if leb page_count s.pages && (s.kind == section_free) then some s else next

-- `pmm_recombine` of the state.
abbrev pub recombined : ℕ → Pmm → Option Pmm
recombined rounds m = elim (pmm_recombine rounds m.sections) [
  | none ↦ none
  | some sections ↦ some (record m { sections = sections })
]

abbrev pub returning : ℕ → Option Pmm → Option (ℕ × Pmm)
returning base none = none
returning base (some m) = some (base, m)

-- What a pool asks of the kernel's heap, whose state is of the type `H`: `malloc`, which takes pages
-- of its own, `memset` with zeros, and the word that memory holds, for the `base` of a new pool.
pub record PoolHeap (H : Type 0) : Type 0 where
  pub malloc : (size : ℕ) → H → Pmm → Option (ℕ × H × Pmm)
  pub clear : (address bytes : ℕ) → H → H
  pub word : (address : ℕ) → H → ℕ

-- `sizeof(pmm_pool_t)`
abbrev pub pool_size : ℕ
pool_size = 24

-- The first pool is cleared, with a page from its start on.
abbrev pub clear_first : {H : Type 0} → PoolHeap H → List Pool → (address : ℕ) → H → H
clear_first heap [] address h = heap.clear address paging_page_size h
clear_first heap (p ∷ pools) address h = h

-- The pool at `address` is entered; then the first free section with room is locked.
unfoldable pub fill_pool : (rounds word page_count : ℕ) → Pmm → Option (ℕ × Pmm)
unfolding find_free
fill_pool rounds word page_count m = elim (find_free page_count m.sections) [
  | none ↦
      let pool : Pool = record { pages = page_count; base = word } in
      returning 0 (recombined rounds (record m { pools = m.pools ++ pool ∷ [] }))
  | some s ↦
      let pool : Pool = record { pages = page_count; base = s.start } in
      returning s.start
        (pmm_lock_pages rounds s.start page_count (record m { pools = m.pools ++ pool ∷ [] }))
]

abbrev pub beside : {H : Type 0} → H → Option (ℕ × Pmm) → Option (ℕ × H × Pmm)
beside h none = none
beside h (some (base, m)) = some (base, h, m)

unfoldable pub pmm_alloc_pool :
    {H : Type 0} → PoolHeap H → (rounds page_count : ℕ) → H → Pmm → Option (ℕ × H × Pmm)
pmm_alloc_pool heap rounds page_count h m =
    if not m.allowing_allocations then some (0, h, m) else elim (heap.malloc pool_size h m) [
      | none ↦ none
      | some (address, h', m') ↦
          let h'' = clear_first heap m.pools address h' in
          if address == 0
          then none
          else beside h'' (fill_pool rounds (heap.word (add64 address 16) h'') page_count m')
    ]

-- The pool in which an address lies, its end included.
unfoldable pub find_pool : (address : ℕ) → List Pool → Option Pool
find_pool address [] = none
find_pool address (p ∷ pools) =
    let next = find_pool address pools in
    if leb p.base address && leb address (add64 p.base (mul64 p.pages paging_page_size))
    then some p
    else next

abbrev pub has_pools : List Pool → Bool
has_pools [] = false
has_pools (p ∷ pools) = true

unfoldable pub pmm_free_pool : (rounds pool : ℕ) → Pmm → Option Pmm
pmm_free_pool rounds pool m =
    if not (m.allowing_allocations && has_pools m.pools) || (pool == 0)
    then some m
    else elim (find_pool pool m.pools) [
      | none ↦ recombined rounds m
      | some p ↦ pmm_unlock_pages rounds p.base p.pages m
    ]
