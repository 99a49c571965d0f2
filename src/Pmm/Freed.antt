-- ===== src/Pmm/Freed.antt =====
-- The loop of `pmm_free_page` at the start of a section.
use skylight.Base.{
  ℕ, zero, suc, ◌≡◌, refl, Bool, true, false, not, List, [], ◌∷◌, ◌++◌, some, if◌then◌else◌, arith,
  ◌∙◌, ap, ==_of_ne, ==_refl,
}
use skylight.Pmm.{Section, Table, Pmm}
use skylight.Pmm.Freeing.{free_start, free_walk, lies_inside, freed_from, pmm_free_page}
use skylight.Pmm.Room.{Below}
use skylight.Pmm.Release.{Placed, Passes, Begins, walk-start}

free_walk-Passes : Passes free_walk
unfolding free_walk
free_walk-Passes rounds before fr q n rest page t ne le =
    let out : lies_inside page q n ≡ false = ground arith in rw (==_of_ne _ _ ne, out) refl

free_walk-Begins : Begins free_walk free_start
unfolding free_walk
free_walk-Begins zero before fr s rest t enough = absurd (omega arith)
free_walk-Begins (suc rounds) before fr s [] t enough = rw (==_refl s.start) refl
free_walk-Begins (suc rounds) before fr s (n ∷ rest) t enough = rw (==_refl s.start) refl

pub free_walk-start :
    (rounds a : ℕ) (front : List Section) (p s : Section) (rest : List Section) (t : Table)
    (r : Bool) (out : List Section) (t' : Table)
    → Placed rounds a front p s rest t
    → ((before : List ℕ)
        → Below t.head before
        → free_start before (p ∷ []) s rest t ≡ some (r, out, t'))
    → free_walk rounds [] [] (front ++ p ∷ s ∷ rest) s.start t ≡ some (r, front ++ out, t')
free_walk-start = walk-start free_walk free_walk-Passes free_start free_walk-Begins

-- `pmm_free_page` once the loop has run.
abbrev pub state_of : Pmm → List Section → Table → Pmm
state_of m sections t = record m { sections = sections; table = t }

pub pmm_free_page-walked :
    (rounds page : ℕ) (m : Pmm) (sections : List Section) (t : Table)
    → m.allowing_allocations ≡ true
    → free_walk rounds [] [] m.sections page m.table ≡ some (true, sections, t)
    → pmm_free_page rounds page m ≡ some (state_of m sections t)
unfolding pmm_free_page
pmm_free_page-walked rounds page m sections t allowing walked =
    ap
      (λ b. if not b then some m else freed_from m (free_walk rounds [] [] m.sections page m.table))
      allowing
    ∙ ap (freed_from m) walked
