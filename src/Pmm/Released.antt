-- ===== src/Pmm/Released.antt =====
-- `pmm_free_page` by what lies beside the page: it frees the page, or it changes nothing.
use skylight.Base.{
  ℕ, ◌*◌, ◌<◌, ◌≡◌, refl, ◌≢◌, ◌⊎◌, inl, inr, Bool, true, List, [], ◌∷◌, ◌++◌, some, arith, ◌∙◌, ap,
  sym, ==_of_eq, ==_of_ne, eq_or_ne,
}
use skylight.Pmm.{Section, Table, Pmm, section_free, slots_of, section_size}
use skylight.Pmm.Freeing.{
  returned_with, free_single, free_start, free_walk, pmm_free_page, combine_next, combine_prev,
  combine_both, is_inner,
}
use skylight.Pmm.Room.{Below, Below-append}
use skylight.Pmm.Release.{Placed, Retyped, Below-slots_of}
use skylight.Pmm.Pages.{retype_first}
use skylight.Pmm.Retype.{Tiles-behind, retype_first_lem, mark-Changed, Retyped-Changed}
use skylight.Pmm.Freed.{free_walk-start, pmm_free_page-walked}

-- Sections of two kinds are not joined.
combine_next-ne :
    (inner : Bool) (s n : Section) (rest : List Section)
    → s.kind ≢ n.kind
    → combine_next inner s (n ∷ rest) ≡ some (s ∷ n ∷ rest)
unfolding combine_next
combine_next-ne inner s n rest ne = rw (==_of_ne _ _ ne) refl

combine_prev-ne :
    (p s : Section) (rest : List Section)
    → s.kind ≢ p.kind
    → combine_prev p s rest ≡ some (p ∷ s ∷ rest)
unfolding combine_prev
combine_prev-ne p s rest ne = rw (==_of_ne _ _ ne) refl

combine_both-ne :
    (inner : Bool) (p s n : Section) (rest : List Section)
    → s.kind ≢ n.kind
    → p.kind ≢ s.kind
    → combine_both inner p s (n ∷ rest) ≡ some (p ∷ s ∷ n ∷ rest)
unfolding combine_both
combine_both-ne inner p s n rest ne ne' =
    rw (combine_both, combine_next-ne true s n rest ne) (combine_next-ne inner p s (n ∷ rest) ne')

-- What the loop does at a used page.
module _ (before : List ℕ) (p s n : Section) (rest : List Section) (t : Table)
    (busy : s.kind ≢ section_free) where
  free_start-more :
      s.pages ≢ 1
      → free_start before (p ∷ []) s (n ∷ rest) t
        ≡ returned_with []
            (n ∷ rest)
            (retype_first section_free (before ++ slots_of (p ∷ s ∷ n ∷ rest)) p s t)
  unfolding free_start
  free_start-more more = rw (==_of_ne _ _ busy, ==_of_ne _ _ more) refl

  free_start-alone :
      s.pages ≡ 1
      → p.kind ≢ section_free
      → n.kind ≢ section_free
      → free_start before (p ∷ []) s (n ∷ rest) t
        ≡ some (true, p ∷ record s { kind = section_free } ∷ n ∷ rest, t)
  unfolding free_start free_single
  free_start-alone one p_ne n_ne =
      rw (==_of_ne _ _ busy, ==_of_eq _ _ one, ==_of_ne _ _ p_ne, ==_of_ne _ _ n_ne) refl

  free_single-stuck :
      (p.kind ≡ section_free) ⊎ (n.kind ≡ section_free)
      → free_single before p s (n ∷ rest) ≡ some (p ∷ s ∷ n ∷ rest)
  unfolding free_single
  free_single-stuck some_free = elim (eq_or_ne p.kind section_free) [
    | inl p_free ↦ elim (eq_or_ne n.kind section_free) [
      | inl n_free ↦
          rw (==_of_eq _ _ p_free, ==_of_eq _ _ n_free)
            (combine_both-ne (is_inner before) p s n rest (λ e. busy (e ∙ n_free))
              (λ e. busy (sym e ∙ p_free)))
      | inr n_ne ↦
          rw (==_of_eq _ _ p_free, ==_of_ne _ _ n_ne)
            (combine_prev-ne p s (n ∷ rest) (λ e. busy (e ∙ p_free)))
    ]
    | inr p_ne ↦ elim some_free [
      | inl p_free ↦ absurd (p_ne p_free)
      | inr n_free ↦
          rw
            (
              ==_of_ne _ _ p_ne,
              ==_of_eq _ _ n_free,
              combine_next-ne true s n rest (λ e. busy (e ∙ n_free)),
            )
            refl
    ]
  ]

  free_start-stuck :
      s.pages ≡ 1
      → (p.kind ≡ section_free) ⊎ (n.kind ≡ section_free)
      → free_start before (p ∷ []) s (n ∷ rest) t ≡ some (true, p ∷ s ∷ n ∷ rest, t)
  unfolding free_start
  free_start-stuck one some_free =
      rw (==_of_ne _ _ busy, ==_of_eq _ _ one, free_single-stuck some_free) refl

module _ (rounds a : ℕ) (m : Pmm) (front : List Section) (p s n : Section) (rest : List Section)
    (allowing : m.allowing_allocations ≡ true) (sections : m.sections ≡ front ++ p ∷ s ∷ n ∷ rest)
    (placed : Placed rounds a front p s (n ∷ rest) m.table) (busy : s.kind ≢ section_free) where
  -- The loop ends at the section `s`.
  pmm_free_page-at :
      (out : List Section) (t' : Table)
      → ((before : List ℕ)
          → Below m.table.head before
          → free_start before (p ∷ []) s (n ∷ rest) m.table ≡ some (true, out, t'))
      → pmm_free_page rounds s.start m ≡ some (record m { sections = front ++ out; table = t' })
  pmm_free_page-at out t' ends = pmm_free_page-walked rounds s.start m (front ++ out) t' allowing (
      ap (λ l. free_walk rounds [] [] l s.start m.table) sections
      ∙ free_walk-start rounds a front p s (n ∷ rest) m.table true out t' placed ends)

  -- Where allocations are allowed and rounds are given for the sections before the page and two
  -- more, `pmm_free_page` of the address of a section of one page that is not free, between two
  -- others of which one is free, and before which no section is empty, changes nothing: the page
  -- is not freed. All sections lie behind one another, in the lower half of the addresses, and
  -- their slots are below the next slot of the table.
  pub pmm_free_page-stuck :
      s.pages ≡ 1
      → (p.kind ≡ section_free) ⊎ (n.kind ≡ section_free)
      → pmm_free_page rounds s.start m ≡ some m
  pmm_free_page-stuck one some_free =
      pmm_free_page-at (p ∷ s ∷ n ∷ rest) m.table
        (λ before low. free_start-stuck before p s n rest m.table busy one some_free)
      ∙ ap (λ l. some (record m { sections = l })) (sym sections)

  pmm_free_page-alone :
      s.pages ≡ 1
      → p.kind ≢ section_free
      → n.kind ≢ section_free
      → Retyped section_free a m s.start (pmm_free_page rounds s.start m)
  pmm_free_page-alone one p_ne n_ne =
      Retyped-Changed section_free s.start a m front (p ∷ s ∷ n ∷ rest) _ m.table _ sections
        placed.tiles (mark-Changed section_free p s (n ∷ rest) one)
        (pmm_free_page-at _ m.table
          (λ before low. free_start-alone before p s n rest m.table busy one p_ne n_ne))

  pmm_free_page-longer :
      1 < s.pages
      → m.table.head * section_size < m.table.data_size
      → Retyped section_free a m s.start (pmm_free_page rounds s.start m)
  pmm_free_page-longer more fits =
      let (b, tiles) = Tiles-behind a front (p ∷ s ∷ n ∷ rest) placed.tiles in
      let low = (Below-slots_of m.table.head front (p ∷ s ∷ n ∷ rest) placed.low).1 in
      let (parts, t', first, change) =
        retype_first_lem section_free p s (n ∷ rest) m.table b tiles more low.1 in
      let linked = λ (before : List ℕ). before ++ slots_of (p ∷ s ∷ n ∷ rest) in
      let ran = pmm_free_page-at (parts ++ n ∷ rest) t' λ before below.
        rw
          (
            free_start-more before p s n rest m.table busy (omega arith),
            first (linked before) (Below-append m.table.head before _ below low, fits),
          )
          refl in
      Retyped-Changed section_free s.start a m front (p ∷ s ∷ n ∷ rest) (parts ++ n ∷ rest) t' _
        sections placed.tiles change ran

  -- Where allocations are allowed and rounds are given for the sections before the page and two
  -- more, `pmm_free_page` of the address at which a section begins that is not free and not the
  -- first or the last, and before which none is empty, makes exactly the memory of that page free
  -- and leaves the count of free memory as it is, if the section has more than one page, or has
  -- one page and neither of its neighbours is free. All sections lie behind one another, in the
  -- lower half of the addresses, their slots are below the next slot of the table, and the table
  -- has a slot left.
  pub pmm_free_page-frees :
      (1 < s.pages) ⊎ ((s.pages ≡ 1) × (p.kind ≢ section_free) × (n.kind ≢ section_free))
      → m.table.head * section_size < m.table.data_size
      → Retyped section_free a m s.start (pmm_free_page rounds s.start m)
  pmm_free_page-frees (inl more) fits = pmm_free_page-longer more fits
  pmm_free_page-frees (inr (one, p_ne, n_ne)) fits = pmm_free_page-alone one p_ne n_ne
