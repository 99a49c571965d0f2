-- ===== src/Pmm/Take.antt =====
-- The invariant of the sections, and a page taken from a free section.
use skylight.Base.{
  ℕ, ◌+◌, ◌-◌, ◌≤◌, ◌<◌, ◌≡◌, refl, ◌≢◌, inl, inr, List, [], ◌∷◌, ◌++◌, Option, some, arith, add64,
  sub64, ◌∙◌, ap, sym, ==_of_eq, ==_of_ne, eq_or_ne,
}
use mathlib.Core.Path.{subst}
use skylight.Pmm.{Section, Table, section_free, section_used, slots_of, paging_page_size}
use skylight.Pmm.Room.{Below, HasRoom, split_first-room}
use skylight.Pmm.Pages.{retype_first}
use skylight.Pmm.View.{kind_at, Tiles, limit, with_page, give-view, give-Tiles, with_page-cons}

-- The last section is not free and not empty.
abbrev pub Ended : List Section → Type 0
Ended [] = Unit {0}
Ended (s ∷ []) = (s.kind ≢ section_free) × (0 < s.pages)
Ended (s ∷ n ∷ rest) = Ended (n ∷ rest)

-- So is the first.
abbrev pub Framed : List Section → Type 0
Framed [] = ⊥
Framed (s ∷ rest) = (s.kind ≢ section_free) × (0 < s.pages) × Ended rest

-- The invariant of the sections and the table.
abbrev pub WellFormed : ℕ → List Section → Table → Type 0
WellFormed a sections t = Tiles a sections × Framed sections × Below t.head (slots_of sections)

pub Framed-Ended : (l : List Section) → Framed l → Ended l
Framed-Ended [] framed = elim framed [ ]
Framed-Ended (s ∷ []) framed = (framed.0, framed.1)
Framed-Ended (s ∷ n ∷ rest) framed = framed.2

pub Ended-append :
    (parts : List Section) (n : Section) (rest : List Section)
    → Ended (n ∷ rest)
    → Ended (parts ++ n ∷ rest)
Ended-append [] n rest ended = ended
Ended-append (p ∷ []) n rest ended = ended
Ended-append (p ∷ q ∷ parts) n rest ended = Ended-append (q ∷ parts) n rest ended

-- What taking the first page of the section `s` behind `p` comes to.
abbrev pub Takes :
    ℕ → (p s : Section) → List Section → Table → Option (List Section × Table) → Type 0
Takes a p s rest t o =
    (parts : List Section) × (t' : Table) × (o ≡ some (parts, t'))
    × (t.head ≤ t'.head)
    × WellFormed a (parts ++ rest) t'
    × ((x : ℕ) → kind_at (parts ++ rest) x ≡ with_page section_used s.start (p ∷ s ∷ rest) x)

module _ (linked : List ℕ) (a : ℕ) (p s n : Section) (rest : List Section) (t : Table)
    (tiles : Tiles a (p ∷ s ∷ n ∷ rest)) (ne : p.kind ≢ section_free) (some_pages : 0 < p.pages)
    (pages : 0 < s.pages) (ended : Ended (n ∷ rest))
    (low : Below t.head (slots_of (p ∷ s ∷ n ∷ rest))) where
  take_first-used :
      p.kind ≡ section_used → Takes a p s (n ∷ rest) t (retype_first section_used linked p s t)
  unfolding retype_first
  take_first-used is_used =
      let at : add64 s.start paging_page_size ≡ s.start + 4096 =
        omega (arith, tiles.2.0, tiles.2.1) in
      let more : add64 p.pages 1 ≡ p.pages + 1 = omega (arith, tiles.1) in
      let less : sub64 s.pages 1 ≡ s.pages - 1 = omega (arith, tiles.2.1) in
      let u = record p { pages = p.pages + 1 } in
      let v = record s { start = s.start + 4096; pages = s.pages - 1 } in
      let next : s.start ≡ limit p = omega (arith, tiles.0, tiles.2.0) in
      let view = λ (x : ℕ).
        give-view p s u v refl refl next refl (omega arith) (n ∷ rest) x refl refl
        ∙ ap (λ k. with_page k s.start (p ∷ s ∷ n ∷ rest) x) is_used in
      rw (retype_first, ==_of_eq _ _ is_used, more, at, less)
        (
          u ∷ v ∷ [],
          t,
          refl,
          omega arith,
          (
            give-Tiles p s u v refl refl next refl (omega arith) a (n ∷ rest) tiles,
            (ne, omega arith, ended),
            low,
          ),
          view,
        )

  take_first-other :
      HasRoom linked t
      → p.kind ≢ section_used
      → Takes a p s (n ∷ rest) t (retype_first section_used linked p s t)
  unfolding retype_first
  take_first-other room other =
      let there = subst (λ b. Tiles b (s ∷ n ∷ rest)) (sym tiles.2.0) tiles.2 in
      let (parts, t', ran, done) = split_first-room s section_used (n ∷ rest) t there pages low.1 in
      rw (retype_first, ==_of_ne _ _ other, ran linked room)
        (
          p ∷ parts,
          t',
          refl,
          done.3,
          (
            (tiles.0, tiles.1, subst (λ b. Tiles b (parts ++ n ∷ rest)) tiles.2.0 done.0),
            (ne, some_pages, Ended-append parts n rest ended),
            (omega (arith, low.0, done.3), done.2),
          ),
          λ x.
              with_page-cons p section_used s.start (s ∷ n ∷ rest) (parts ++ n ∷ rest) x
                (omega (arith, tiles.0, tiles.2.0)) (done.1 x),
        )

pub take_page_lem :
    (linked : List ℕ) (a : ℕ) (p s n : Section) (rest : List Section) (t : Table)
    → Tiles a (p ∷ s ∷ n ∷ rest)
    → p.kind ≢ section_free
    → 0 < p.pages
    → 0 < s.pages
    → Ended (n ∷ rest)
    → Below t.head (slots_of (p ∷ s ∷ n ∷ rest))
    → HasRoom linked t
    → Takes a p s (n ∷ rest) t (retype_first section_used linked p s t)
take_page_lem linked a p s n rest t tiles ne some_pages pages ended low room =
    elim (eq_or_ne p.kind section_used) [
      | inl is_used ↦
          take_first-used linked a p s n rest t tiles ne some_pages pages ended low is_used
      | inr other ↦
          take_first-other linked a p s n rest t tiles ne some_pages pages ended low room other
    ]
