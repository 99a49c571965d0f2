-- ===== src/Pmm/Outcome.antt =====
-- What `pmm_alloc_page` comes to, section by section.
use skylight.Base.{
  ℕ, ◌+◌, ◌*◌, ◌≤◌, ◌<◌, ◌≡◌, refl, ◌≢◌, ◌⊎◌, inl, inr, List, ◌∷◌, ◌++◌, Option, some,
  if◌then◌else◌, Bool-cases, arith, ◌∙◌, ap, sym, le_or_lt,
}
use mathlib.Core.Option.{none-ne-some, some-injective}
use skylight.Pmm.{Section, Table, section_free, section_used}
use skylight.Pmm.Take.{WellFormed, Framed-Ended, Takes}
use skylight.Pmm.Pages.{Taken, behind, before_rest}
use skylight.Pmm.View.{
  kind_at, Tiles, covers, in_page, with_page, kind_at-in, kind_at-out, kind_at-below, kind_at-empty,
  with_page-cons,
}

-- No memory is free, or the page at `base` is the lowest that is, and used from then on.
abbrev pub Outcome : List Section → ℕ → List Section → Type 0
Outcome l base l' =
    ((base ≡ 0)
      × ((x : ℕ) → kind_at l x ≢ some section_free)
      × ((x : ℕ) → kind_at l' x ≡ kind_at l x))
    ⊎ ((0 < base)
        × (kind_at l base ≡ some section_free)
        × ((x : ℕ) → x < base → kind_at l x ≢ some section_free)
        × ((x : ℕ) → kind_at l' x ≡ with_page section_used base l x))

abbrev pub Allocates : ℕ → List Section → Table → Option Taken → Type 0
Allocates a l t o =
    (base : ℕ) × (l' : List Section) × (t' : Table) × (o ≡ some (base, l', t'))
    × (t.head ≤ t'.head)
    × WellFormed a l' t'
    × Outcome l base l'

pub not_free-cons :
    (p : Section) (l : List Section) (x : ℕ)
    → p.kind ≢ section_free
    → kind_at l x ≢ some section_free
    → kind_at (p ∷ l) x ≢ some section_free
not_free-cons p l x ne rest_ne = elim (Bool-cases (covers p x)) [
  | inl within ↦ rw within (λ e. ne (some-injective _ _ e))
  | inr out ↦ rw out rest_ne
]

-- What is free lies behind a section that is not.
pub free-behind :
    (a : ℕ) (l : List Section) (x : ℕ) → Tiles a l → kind_at l x ≡ some section_free → a ≤ x
free-behind a l x tiles found = elim (le_or_lt a x) [
  | inl le ↦ le
  | inr lt ↦ absurd (none-ne-some section_free (sym (kind_at-below a l x tiles lt) ∙ found))
]

pub Outcome-next :
    (a : ℕ) (p : Section) (l l' : List Section) (base : ℕ)
    → Tiles a (p ∷ l)
    → p.kind ≢ section_free
    → Outcome l base l'
    → Outcome (p ∷ l) base (p ∷ l')
Outcome-next a p l l' base tiles ne (inl (zero_base, no_free, same)) =
    inl (zero_base, (λ x. not_free-cons p l x ne (no_free x)), λ x. rw (same x) refl)
Outcome-next a p l l' base tiles ne (inr (pos, found, lowest, view)) =
    let far = free-behind (a + p.pages * 4096) l base tiles.2 found in
    inr (
      pos,
      kind_at-out p l base (inr (omega (arith, tiles.0))) ∙ found,
      (λ x lt. not_free-cons p l x ne (lowest x lt)),
      λ x. with_page-cons p section_used base l l' x (omega (arith, tiles.0)) (view x),
    )

pub Outcome-same :
    (l m l' : List Section) (base : ℕ)
    → ((x : ℕ) → kind_at m x ≡ kind_at l x)
    → Outcome l base l'
    → Outcome m base l'
Outcome-same l m l' base same (inl (zero_base, no_free, view)) =
    inl (zero_base, (λ x e. no_free x (sym (same x) ∙ e)), λ x. view x ∙ sym (same x))
Outcome-same l m l' base same (inr (pos, found, lowest, view)) = inr (
  pos,
  same base ∙ found,
  (λ x lt e. lowest x lt (sym (same x) ∙ e)),
  λ x. view x ∙ ap (λ k. if in_page base x then some section_used else k) (sym (same x)),
)

pub Allocates-next :
    (a : ℕ) (p : Section) (l : List Section) (t : Table) (o : Option Taken)
    → Tiles a (p ∷ l)
    → p.kind ≢ section_free
    → 0 < p.pages
    → p.slot < t.head
    → Allocates (a + p.pages * 4096) l t o
    → Allocates a (p ∷ l) t (behind p o)
Allocates-next a p l t o tiles ne some_pages low (base, l', t', ran, grown, good, outcome) =
    rw ran (
      base,
      p ∷ l',
      t',
      refl,
      grown,
      ((tiles.0, tiles.1, good.0), (ne, some_pages, Framed-Ended l' good.1), (omega arith, good.2)),
      Outcome-next a p l l' base tiles ne outcome,
    )

-- The hypotheses of the loop at the section behind `p`.
pub Allocates-skip :
    (a : ℕ) (p s : Section) (l : List Section) (t : Table) (o : Option Taken)
    → s.pages ≡ 0
    → Allocates a (p ∷ l) t o
    → Allocates a (p ∷ s ∷ l) t o
Allocates-skip a p s l t o empty (base, l', t', ran, grown, good, outcome) = (
  base,
  l',
  t',
  ran,
  grown,
  good,
  Outcome-same (p ∷ l) (p ∷ s ∷ l) l' base (λ x. rw (kind_at-empty s l x empty) refl) outcome,
)

pub Takes-Allocates :
    (a : ℕ) (p s : Section) (rest : List Section) (t : Table) (o : Option (List Section × Table))
    → Tiles a (p ∷ s ∷ rest)
    → p.kind ≢ section_free
    → 0 < p.pages
    → 0 < s.pages
    → s.kind ≡ section_free
    → Takes a p s rest t o
    → Allocates a (p ∷ s ∷ rest) t (before_rest s.start rest o)
Takes-Allocates a p s rest t o tiles ne some_pages pages is_free
      (parts, t', ran, grown, good, view) =
    rw ran (
      s.start,
      parts ++ rest,
      t',
      refl,
      grown,
      good,
      inr (
        omega (arith, tiles.0, tiles.2.0),
        kind_at-out p (s ∷ rest) s.start (inr (omega (arith, tiles.0, tiles.2.0)))
            ∙ kind_at-in s rest s.start (omega arith) (omega arith)
            ∙ ap some is_free,
        (λ x lt. not_free-cons p (s ∷ rest) x ne λ found. none-ne-some section_free (
            sym (kind_at-below (a + p.pages * 4096) (s ∷ rest) x tiles.2 (omega (arith, tiles.2.0)))
            ∙ found)),
        view,
      ),
    )
