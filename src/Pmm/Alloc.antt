-- ===== src/Pmm/Alloc.antt =====
-- `pmm_alloc_page`
use skylight.Base.{
  ℕ, ◌+◌, ◌*◌, ◌<◌, ◌≡◌, refl, ◌≢◌, inl, inr, true, not, List, [], ◌∷◌, ◌++◌, Option, some, ◌==◌,
  if◌then◌else◌, arith, sub64, ap, ==_of_eq, ==_of_ne, eq_or_ne,
}
use mathlib.Core.Path.{subst}
use mathlib.Core.Option.{none-ne-some}
use skylight.Pmm.{
  Section, Table, Pmm, section_free, section_used, slots_of, section_size, paging_page_size,
}
use skylight.Pmm.Room.{Below, Below-append}
use skylight.Pmm.Take.{Ended, WellFormed, take_page_lem}
use skylight.Pmm.Pages.{
  retype_first, Taken, alloc_from, behind, unlinked, before_rest, alloc_sections, taken_from,
  pmm_alloc_page,
}
use skylight.Pmm.View.{Tiles}
use skylight.Pmm.Outcome.{
  Outcome, Allocates, not_free-cons, Allocates-next, Allocates-skip, Takes-Allocates,
}

-- The branches of the loop.
module _ (before : List ℕ) (p s : Section) (rest : List Section) (t : Table) where
  alloc_from-empty :
      s.pages ≡ 0 → alloc_from before p (s ∷ rest) t ≡ unlinked rest (alloc_from before p rest t)
  unfolding alloc_from
  alloc_from-empty empty = rw (alloc_from, ==_of_eq _ _ empty) refl

  alloc_from-free :
      0 < s.pages
      → s.kind ≡ section_free
      → alloc_from before p (s ∷ rest) t
        ≡ before_rest s.start rest
            (retype_first section_used (before ++ slots_of (p ∷ s ∷ rest)) p s t)
  unfolding alloc_from
  alloc_from-free pages is_free =
      rw (alloc_from, ==_of_ne s.pages 0 (omega arith), ==_of_eq _ _ is_free) refl

  alloc_from-next :
      0 < s.pages
      → s.kind ≢ section_free
      → alloc_from before p (s ∷ rest) t ≡ behind p (alloc_from (p.slot ∷ before) s rest t)
  unfolding alloc_from
  alloc_from-next pages ne = rw (alloc_from, ==_of_ne s.pages 0 (omega arith), ==_of_ne _ _ ne) refl

-- The section `p` alone.
Allocates-last :
    (a : ℕ) (p : Section) (t : Table)
    → Tiles a (p ∷ [])
    → p.kind ≢ section_free
    → 0 < p.pages
    → p.slot < t.head
    → Allocates a (p ∷ []) t (some (0, p ∷ [], t))
Allocates-last a p t tiles ne some_pages low = (
  0,
  p ∷ [],
  t,
  refl,
  omega arith,
  (tiles, (ne, some_pages, tt), (low, tt)),
  inl (refl, (λ x. not_free-cons p [] x ne (none-ne-some section_free)), λ x. refl),
)

alloc_from_lem :
    (before : List ℕ) (a : ℕ) (p : Section) (rest : List Section) (t : Table)
    → Tiles a (p ∷ rest)
    → p.kind ≢ section_free
    → 0 < p.pages
    → Ended rest
    → Below t.head before
    → Below t.head (slots_of (p ∷ rest))
    → t.head * section_size < t.data_size
    → Allocates a (p ∷ rest) t (alloc_from before p rest t)
unfolding alloc_from
alloc_from_lem before a p [] t tiles ne some_pages ended low low' fits =
    Allocates-last a p t tiles ne some_pages low'.0
alloc_from_lem before a p (s ∷ []) t tiles ne some_pages ended low low' fits =
    rw (alloc_from-next before p s [] t ended.1 ended.0) (
      Allocates-next a p (s ∷ []) t _ tiles ne some_pages low'.0
        (Allocates-last _ s t tiles.2 ended.0 ended.1 low'.1.0))
alloc_from_lem before a p (s ∷ n ∷ rest) t tiles ne some_pages ended low low' fits =
    elim (eq_or_ne s.pages 0) [
      | inl empty ↦
          let shorter = subst (λ k. Tiles k (n ∷ rest)) (omega (arith, empty)) tiles.2.2 in
          rw (alloc_from-empty before p s (n ∷ rest) t empty) (
            Allocates-skip a p s (n ∷ rest) t (alloc_from before p (n ∷ rest) t) empty (
              alloc_from_lem before a p (n ∷ rest) t (tiles.0, tiles.1, shorter) ne some_pages ended
                low (low'.0, low'.1.1) fits))
      | inr pages ↦ elim (eq_or_ne s.kind section_free) [
        | inl is_free ↦ rw (alloc_from-free before p s (n ∷ rest) t (omega arith) is_free) (
            Takes-Allocates a p s (n ∷ rest) t _ tiles ne some_pages (omega arith) is_free (
              take_page_lem _ a p s n rest t tiles ne some_pages (omega arith) ended low'
                (Below-append t.head before _ low low', fits)))
        | inr other ↦ rw (alloc_from-next before p s (n ∷ rest) t (omega arith) other) (
            Allocates-next a p (s ∷ n ∷ rest) t _ tiles ne some_pages low'.0 (
              alloc_from_lem (p.slot ∷ before) (a + p.pages * 4096) s (n ∷ rest) t tiles.2 other
                (omega arith) ended (low'.0, low) low'.1 fits))
      ]
    ]

abbrev pub Allocated : ℕ → Pmm → Option (ℕ × Pmm) → Type 0
Allocated a m o =
    (base : ℕ) × (m' : Pmm) × (o ≡ some (base, m'))
    × WellFormed a m'.sections m'.table
    × Outcome m.sections base m'.sections
    × (m'.free_memory ≡ (if base == 0 then m.free_memory else sub64 m.free_memory paging_page_size))

taken_from-Allocated :
    (a : ℕ) (m : Pmm) (o : Option Taken)
    → Allocates a m.sections m.table o
    → Allocated a m (taken_from m o)
taken_from-Allocated a m o (base, l', t', ran, grown, good, outcome) =
    rw ran (base, _, refl, good, outcome, refl)

alloc_sections_lem :
    (a : ℕ) (l : List Section) (t : Table)
    → WellFormed a l t
    → t.head * section_size < t.data_size
    → Allocates a l t (alloc_sections l t)
unfolding alloc_sections
alloc_sections_lem a [] t good fits = elim good.1 [ ]
alloc_sections_lem a (s ∷ rest) t good fits =
    let (ne, pages, ended) = good.1 in
    rw (==_of_ne s.pages 0 (omega arith), ==_of_ne s.kind section_free ne)
      (alloc_from_lem [] a s rest t good.0 ne pages ended tt good.2 fits)

pmm_alloc_page-allowed :
    (m : Pmm)
    → m.allowing_allocations ≡ true
    → pmm_alloc_page m ≡ taken_from m (alloc_sections m.sections m.table)
unfolding pmm_alloc_page
pmm_alloc_page-allowed m allowing =
    ap (λ b. if not b then some (0, m) else taken_from m (alloc_sections m.sections m.table))
      allowing

-- Where allocations are allowed, the sections lie behind one another in the lower half of the
-- addresses, the first and the last are neither free nor empty, the slots are below the head of
-- the table, and the table has a slot left, `pmm_alloc_page` returns. Either no memory is free,
-- and it returns 0 and no address changes its kind, or it returns the lowest address of free
-- memory, the page there becomes used, no other address changes its kind, and a page is taken off
-- the free memory. The sections stay as required.
pub pmm_alloc_page_lem :
    (a : ℕ) (m : Pmm)
    → m.allowing_allocations ≡ true
    → WellFormed a m.sections m.table
    → m.table.head * section_size < m.table.data_size
    → Allocated a m (pmm_alloc_page m)
pmm_alloc_page_lem a m allowing good fits = rw (pmm_alloc_page-allowed m allowing) (
    taken_from-Allocated a m (alloc_sections m.sections m.table)
      (alloc_sections_lem a m.sections m.table good fits))
