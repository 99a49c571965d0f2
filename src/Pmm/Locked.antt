-- ===== src/Pmm/Locked.antt =====
-- `pmm_lock_page` of the page at the start of a section.
use skylight.Base.{
  ℕ, zero, suc, ◌*◌, ◌<◌, ◌≡◌, ◌≢◌, ◌⊎◌, refl, inl, inr, true, false, not, List, [], ◌∷◌, ◌++◌,
  some, if◌then◌else◌, arith, ◌∙◌, ap, ==_of_eq, ==_of_ne, ==_refl,
}
use skylight.Pmm.{Section, Table, Pmm, section_used, section_size, slots_of}
use skylight.Pmm.Pages.{retype_first}
use skylight.Pmm.Freeing.{lies_inside, returned_with}
use skylight.Pmm.Lock.{lock_single, lock_start, lock_walk, locked_from, pmm_lock_page}
use skylight.Pmm.Room.{Below, Below-append}
use skylight.Pmm.Release.{Placed, Passes, Begins, walk-start, Retyped, Below-slots_of}
use skylight.Pmm.Retype.{Tiles-behind, retype_first_lem, mark-Changed, Retyped-Changed}

lock_walk-Passes : Passes lock_walk
unfolding lock_walk
lock_walk-Passes rounds before fr q n rest page t ne le =
    let out : lies_inside page q n ≡ false = ground arith in rw (==_of_ne _ _ ne, out) refl

lock_walk-Begins : Begins lock_walk lock_start
unfolding lock_walk
lock_walk-Begins zero before fr s rest t enough = absurd (omega arith)
lock_walk-Begins (suc rounds) before fr s [] t enough = rw (==_refl s.start) refl
lock_walk-Begins (suc rounds) before fr s (n ∷ rest) t enough = rw (==_refl s.start) refl

-- What the loop does at a page that is not used.
module _ (before : List ℕ) (p s n : Section) (rest : List Section) (t : Table) where
  lock_start-more :
      s.pages ≢ 1
      → s.kind ≢ section_used
      → lock_start before (p ∷ []) s (n ∷ rest) t
        ≡ returned_with []
            (n ∷ rest)
            (retype_first section_used (before ++ slots_of (p ∷ s ∷ n ∷ rest)) p s t)
  unfolding lock_start
  lock_start-more more ne = rw (==_of_ne _ _ more, ==_of_ne _ _ ne) refl

  lock_start-alone :
      s.pages ≡ 1
      → p.kind ≢ section_used
      → n.kind ≢ section_used
      → lock_start before (p ∷ []) s (n ∷ rest) t
        ≡ some (true, p ∷ record s { kind = section_used } ∷ n ∷ rest, t)
  unfolding lock_start lock_single
  lock_start-alone one p_ne n_ne = rw (==_of_eq _ _ one, ==_of_ne _ _ p_ne, ==_of_ne _ _ n_ne) refl

  lock_start-used :
      1 < s.pages
      → s.kind ≡ section_used
      → lock_start before (p ∷ []) s (n ∷ rest) t ≡ some (true, p ∷ s ∷ n ∷ rest, t)
  unfolding lock_start
  lock_start-used more is_used = rw (==_of_ne s.pages 1 (omega arith), ==_of_eq _ _ is_used) refl

pmm_lock_page-walked :
    (rounds page : ℕ) (m : Pmm) (sections : List Section) (t : Table)
    → m.allowing_allocations ≡ true
    → lock_walk rounds [] [] m.sections page m.table ≡ some (true, sections, t)
    → pmm_lock_page rounds page m ≡ some (record m { sections = sections; table = t })
unfolding pmm_lock_page
pmm_lock_page-walked rounds page m sections t allowing walked =
    ap
      (λ b.
        if not b then some m else locked_from m (lock_walk rounds [] [] m.sections page m.table))
      allowing
    ∙ ap (locked_from m) walked

module _ (rounds a : ℕ) (m : Pmm) (front : List Section) (p s n : Section) (rest : List Section)
    (allowing : m.allowing_allocations ≡ true) (sections : m.sections ≡ front ++ p ∷ s ∷ n ∷ rest)
    (placed : Placed rounds a front p s (n ∷ rest) m.table) where
  -- The loop ends at the section `s`.
  pmm_lock_page-at :
      (out : List Section) (t' : Table)
      → ((before : List ℕ)
          → Below m.table.head before
          → lock_start before (p ∷ []) s (n ∷ rest) m.table ≡ some (true, out, t'))
      → pmm_lock_page rounds s.start m ≡ some (record m { sections = front ++ out; table = t' })
  pmm_lock_page-at out t' ends = pmm_lock_page-walked rounds s.start m (front ++ out) t' allowing (
      ap (λ l. lock_walk rounds [] [] l s.start m.table) sections
      ∙ walk-start lock_walk lock_walk-Passes lock_start lock_walk-Begins rounds a front p s
          (n ∷ rest) m.table true out t' placed ends)

  pmm_lock_page-alone :
      s.pages ≡ 1
      → p.kind ≢ section_used
      → n.kind ≢ section_used
      → Retyped section_used a m s.start (pmm_lock_page rounds s.start m)
  pmm_lock_page-alone one p_ne n_ne =
      Retyped-Changed section_used s.start a m front (p ∷ s ∷ n ∷ rest) _ m.table _ sections
        placed.tiles (mark-Changed section_used p s (n ∷ rest) one)
        (pmm_lock_page-at _ m.table
          (λ before low. lock_start-alone before p s n rest m.table one p_ne n_ne))

  pmm_lock_page-longer :
      1 < s.pages
      → s.kind ≢ section_used
      → m.table.head * section_size < m.table.data_size
      → Retyped section_used a m s.start (pmm_lock_page rounds s.start m)
  pmm_lock_page-longer more ne fits =
      let (b, tiles) = Tiles-behind a front (p ∷ s ∷ n ∷ rest) placed.tiles in
      let low = (Below-slots_of m.table.head front (p ∷ s ∷ n ∷ rest) placed.low).1 in
      let (parts, t', first, change) =
        retype_first_lem section_used p s (n ∷ rest) m.table b tiles more low.1 in
      let linked = λ (before : List ℕ). before ++ slots_of (p ∷ s ∷ n ∷ rest) in
      let ran = pmm_lock_page-at (parts ++ n ∷ rest) t' λ before below.
        rw
          (
            lock_start-more before p s n rest m.table (omega arith) ne,
            first (linked before) (Below-append m.table.head before _ below low, fits),
          )
          refl in
      Retyped-Changed section_used s.start a m front (p ∷ s ∷ n ∷ rest) (parts ++ n ∷ rest) t' _
        sections placed.tiles change ran

  -- Where allocations are allowed and rounds are given for the sections before the page and two
  -- more, `pmm_lock_page` of the address at which a section begins that is not the first or the
  -- last, and before which none is empty, makes exactly the memory of that page used, if the
  -- section has more than one page and is not used, or has one page and neither of its neighbours
  -- is used. All sections lie behind one another, in the lower half of the addresses, their slots
  -- are below the next slot of the table, and the table has a slot left.
  pub pmm_lock_page-locks :
      ((1 < s.pages) × (s.kind ≢ section_used))
        ⊎ ((s.pages ≡ 1) × (p.kind ≢ section_used) × (n.kind ≢ section_used))
      → m.table.head * section_size < m.table.data_size
      → Retyped section_used a m s.start (pmm_lock_page rounds s.start m)
  pmm_lock_page-locks (inl (more, ne)) fits = pmm_lock_page-longer more ne fits
  pmm_lock_page-locks (inr (one, p_ne, n_ne)) fits = pmm_lock_page-alone one p_ne n_ne
