-- ===== src/Pmm/Realloc.antt =====
-- `pmm_realloc_pool` of kernel/src/mem/pmm/pfa.c, with the copies of memory that it asks for.
use skylight.Base.{
  ℕ, not, ◌&&◌, ◌||◌, List, [], ◌∷◌, Option, none, some, ◌==◌, if◌then◌else◌, mul64,
}
use skylight.Pmm.{Section, Pool, Pmm, paging_page_size}
use skylight.Pmm.Lock.{pmm_lock_pages, pmm_unlock_pages, find_free, recombined, has_pools}

pub data Copy : Type 0 where
  memcpy : (dest src count : ℕ) → Copy
  memset : (dest value count : ℕ) → Copy

-- The first pool that begins at an address.
unfoldable pub pool_at : (address : ℕ) → List Pool → Option Pool
pool_at address [] = none
pool_at address (p ∷ pools) =
    let next = pool_at address pools in if p.base == address then some p else next

-- That pool moved to a section.
unfoldable pub move_pool : (address : ℕ) → Section → List Pool → List Pool
move_pool address s [] = []
move_pool address s (p ∷ pools) =
    let next = move_pool address s pools in
    if p.base == address then record p { pages = s.pages; base = s.start } ∷ pools else p ∷ next

abbrev pub unchanged : (pool : ℕ) → Option Pmm → Option (ℕ × Pmm × List Copy)
unchanged pool none = none
unchanged pool (some m) = some (pool, m, [])

-- The pool `p` at an address moves to the section `s`.
unfoldable pub move_to :
    (rounds page_count address : ℕ) → Pool → Section → Pmm → Option (ℕ × Pmm × List Copy)
move_to rounds page_count address p s m =
    let size = mul64 p.pages paging_page_size in
    elim (pmm_lock_pages rounds s.start page_count m) [
      | none ↦ none
      | some locked ↦ elim (pmm_unlock_pages rounds p.base p.pages locked) [
        | none ↦ none
        | some m' ↦ some (
          s.start,
          record m' { pools = move_pool address s m'.pools },
          memcpy s.start p.base size ∷ memset p.base 0 size ∷ [],
        )
      ]
    ]

unfoldable pub pmm_realloc_pool : (rounds pool page_count : ℕ) → Pmm → Option (ℕ × Pmm × List Copy)
pmm_realloc_pool rounds pool page_count m =
    if not (m.allowing_allocations && has_pools m.pools) || (pool == 0)
    then some (0, m, [])
    else elim (pool_at pool m.pools) [
      | none ↦ unchanged pool (recombined rounds m)
      | some p ↦ elim (find_free page_count m.sections) [
        | none ↦ unchanged pool (recombined rounds m)
        | some s ↦ move_to rounds page_count pool p s m
      ]
    ]
