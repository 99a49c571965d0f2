-- ===== src/Pmm/Retype.antt =====
-- A page that becomes of another kind, in sections that lie behind one another.
use skylight.Base.{
  ℕ, ◌+◌, ◌-◌, ◌*◌, ◌≤◌, ◌<◌, ◌≡◌, ◌≢◌, refl, inl, inr, List, [], ◌∷◌, ◌++◌, Option, some, arith,
  add64, sub64, ◌∙◌, ap, sym, ==_of_eq, ==_of_ne, eq_or_ne,
}
use mathlib.Core.Path.{subst}
use skylight.Pmm.{Section, Table, Pmm, slots_of, paging_page_size}
use skylight.Pmm.Pages.{retype_first}
use skylight.Pmm.Room.{Below, HasRoom, split_first-room}
use skylight.Pmm.Release.{Retyped}
use skylight.Pmm.View.{
  mark-view, kind_at, Tiles, limit, with_page, with_page-cons, give-view, give-Tiles,
}

-- `l'` in place of `l`, of which a page is of the kind.
abbrev pub Changed : (kind page b : ℕ) → List Section → List Section → Type 0
Changed kind page b l l' = Tiles b l' × ((x : ℕ) → kind_at l' x ≡ with_page kind page l x)

-- A change behind the sections `front`.
pub Changed-front :
    (kind page a : ℕ) (front l l' : List Section)
    → Tiles a (front ++ l)
    → ((b : ℕ) → Tiles b l → (b ≤ page) × Changed kind page b l l')
    → (a ≤ page) × Changed kind page a (front ++ l) (front ++ l')
Changed-front kind page a [] l l' tiles change = change a tiles
Changed-front kind page a (q ∷ front) l l' tiles change =
    let (le, changed) = Changed-front kind page (a + q.pages * 4096) front l l' tiles.2 change in
    (
      omega arith,
      (
        (tiles.0, tiles.1, changed.0),
        λ x.
            with_page-cons q kind page (front ++ l) (front ++ l') x (omega (arith, tiles.0))
              (changed.1 x),
      ),
    )

-- How `retype_first` gives a kind to the first page of `s` behind `p`, whatever the linked slots.
abbrev pub RetypesFirst : (kind : ℕ) → (p s : Section) → List Section → Table → Type 0
RetypesFirst kind p s rest t =
    (parts : List Section) × (t' : Table) × ((linked : List ℕ)
      → HasRoom linked t
      → retype_first kind linked p s t ≡ some (parts, t'))
    × ((c : ℕ)
        → Tiles c (p ∷ s ∷ rest)
        → (c ≤ s.start) × Changed kind s.start c (p ∷ s ∷ rest) (parts ++ rest))

module _ (kind : ℕ) (p s : Section) (rest : List Section) (t : Table) (b : ℕ)
    (tiles : Tiles b (p ∷ s ∷ rest)) (more : 1 < s.pages) where
  retype_first-same : p.kind ≡ kind → RetypesFirst kind p s rest t
  unfolding retype_first
  retype_first-same is_free =
      let at : add64 s.start paging_page_size ≡ s.start + 4096 =
        omega (arith, tiles.2.0, tiles.2.1) in
      let longer : add64 p.pages 1 ≡ p.pages + 1 = omega (arith, tiles.1) in
      let less : sub64 s.pages 1 ≡ s.pages - 1 = omega (arith, tiles.2.1) in
      let u = record p { pages = p.pages + 1 } in
      let v = record s { start = s.start + 4096; pages = s.pages - 1 } in
      let next : s.start ≡ limit p = omega (arith, tiles.0, tiles.2.0) in
      (
        u ∷ v ∷ [],
        t,
        λ linked room. rw (retype_first, ==_of_eq _ _ is_free, longer, at, less) refl,
        λ c tiled. (
          omega (arith, tiled.0, tiled.2.0),
          (
            give-Tiles p s u v refl refl next refl (omega arith) c rest tiled,
            λ x.
                give-view p s u v refl refl next refl (omega arith) rest x refl refl
                ∙ ap (λ k. with_page k s.start (p ∷ s ∷ rest) x) is_free,
          ),
        ),
      )

  retype_first-other :
      Below t.head (slots_of (s ∷ rest)) → p.kind ≢ kind → RetypesFirst kind p s rest t
  unfolding retype_first
  retype_first-other low other =
      let there = subst (λ c. Tiles c (s ∷ rest)) (sym tiles.2.0) tiles.2 in
      let (parts, t', ran, done) = split_first-room s kind rest t there (omega arith) low in
      (
        p ∷ parts,
        t',
        λ linked room. rw (retype_first, ==_of_ne _ _ other, ran linked room) refl,
        λ c tiled. (
          omega (arith, tiled.0, tiled.2.0),
          (
            (tiled.0, tiled.1, subst (λ b. Tiles b (parts ++ rest)) tiled.2.0 done.0),
            λ x.
                with_page-cons p kind s.start (s ∷ rest) (parts ++ rest) x
                  (omega (arith, tiled.0, tiled.2.0)) (done.1 x),
          ),
        ),
      )

pub retype_first_lem :
    (kind : ℕ) (p s : Section) (rest : List Section) (t : Table) (b : ℕ)
    → Tiles b (p ∷ s ∷ rest)
    → 1 < s.pages
    → Below t.head (slots_of (s ∷ rest))
    → RetypesFirst kind p s rest t
retype_first_lem kind p s rest t b tiles more low = elim (eq_or_ne p.kind kind) [
  | inl is_free ↦ retype_first-same kind p s rest t b tiles more is_free
  | inr other ↦ retype_first-other kind p s rest t b tiles more low other
]

pub Tiles-behind : (a : ℕ) (front l : List Section) → Tiles a (front ++ l) → (b : ℕ) × Tiles b l
Tiles-behind a [] l tiles = (a, tiles)
Tiles-behind a (q ∷ front) l tiles = Tiles-behind (a + q.pages * 4096) front l tiles.2

-- A section of one page behind `p` changes its kind.
pub mark-Changed :
    (kind : ℕ) (p s : Section) (rest : List Section)
    → s.pages ≡ 1
    → (b : ℕ) → Tiles b (p ∷ s ∷ rest)
    → (b ≤ s.start) × Changed kind s.start b (p ∷ s ∷ rest) (p ∷ record s { kind = kind } ∷ rest)
mark-Changed kind p s rest one b tiles = (
  omega (arith, tiles.2.0),
  (
    tiles,
    λ x.
        with_page-cons p kind s.start (s ∷ rest) (record s { kind = kind } ∷ rest) x
          (omega (arith, tiles.0, tiles.2.0)) (mark-view s kind rest x one),
  ),
)

-- A run that leaves a change behind `front`.
pub Retyped-Changed :
    (kind page a : ℕ) (m : Pmm) (front l out : List Section) (t' : Table) (o : Option Pmm)
    → m.sections ≡ front ++ l
    → Tiles a (front ++ l)
    → ((b : ℕ) → Tiles b l → (b ≤ page) × Changed kind page b l out)
    → o ≡ some (record m { sections = front ++ out; table = t' })
    → Retyped kind a m page o
Retyped-Changed kind page a m front l out t' o sections tiles change ran =
    let (le, changed) = Changed-front kind page a front l out tiles change in
    (
      record m { sections = front ++ out; table = t' },
      ran,
      changed.0,
      λ x. changed.1 x ∙ ap (λ l. with_page kind page l x) (sym sections),
      refl,
    )
