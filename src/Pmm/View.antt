-- ===== src/Pmm/View.antt =====
-- What the sections of kernel/src/mem/pmm say of each address.
use skylight.Base.{
  ℕ, ◌+◌, ◌*◌, ◌^◌, ◌≤◌, ◌<◌, ◌≡◌, refl, ◌⊎◌, inl, inr, Bool, true, false, not, ◌&&◌, ◌||◌, List,
  [], ◌∷◌, Option, none, some, ◌∙◌, ltb, leb, if◌then◌else◌, Bool-cases, arith, Bool-cases, inl,
  inr,
}
use mathlib.Core.Path.{subst}
use skylight.Pmm.{Section}

-- The address behind the last one of a section, and whether an address lies in it.
abbrev pub limit : Section → ℕ
limit s = s.start + s.pages * 4096

abbrev pub covers : Section → ℕ → Bool
covers s x = leb s.start x && ltb x (limit s)

-- The kind of the memory at an address.
abbrev pub kind_at : List Section → ℕ → Option ℕ
kind_at [] x = none
kind_at (s ∷ rest) x = if covers s x then some s.kind else kind_at rest x

-- Each section begins where the one before it ends, in the lower half of the addresses.
abbrev pub Tiles : ℕ → List Section → Type 0
Tiles a [] = Unit {0}
Tiles a (s ∷ rest) = (s.start ≡ a) × (a + s.pages * 4096 ≤ 2 ^ 63) × Tiles (a + s.pages * 4096) rest

abbrev pub in_page : ℕ → ℕ → Bool
in_page page x = leb page x && ltb x (page + 4096)

-- The view in which the page is of the kind, and all else as it was.
abbrev pub with_page : (kind page : ℕ) → List Section → ℕ → Option ℕ
with_page kind page sections x = if in_page page x then some kind else kind_at sections x

pub covers-empty : (s : Section) (x : ℕ) → s.pages ≡ 0 → covers s x ≡ false
covers-empty s x h = ground arith

pub kind_at-empty :
    (s : Section) (rest : List Section) (x : ℕ)
    → s.pages ≡ 0
    → kind_at (s ∷ rest) x ≡ kind_at rest x
kind_at-empty s rest x h = rw (covers-empty s x h)

pub kind_at-below : (a : ℕ) (l : List Section) (x : ℕ) → Tiles a l → x < a → kind_at l x ≡ none
kind_at-below a [] x tiles h = refl
kind_at-below a (s ∷ rest) x tiles h =
    let out : covers s x ≡ false = ground (arith, tiles.0) in
    rw (out, kind_at-below (a + s.pages * 4096) rest x tiles.2 (omega arith))

-- A section's view by whether it covers the address.
pub kind_at-in :
    (s : Section) (rest : List Section) (x : ℕ)
    → s.start ≤ x
    → x < limit s
    → kind_at (s ∷ rest) x ≡ some s.kind
kind_at-in s rest x low high = let yes : covers s x ≡ true = ground arith in rw yes

pub kind_at-out :
    (s : Section) (rest : List Section) (x : ℕ)
    → (x < s.start) ⊎ (limit s ≤ x)
    → kind_at (s ∷ rest) x ≡ kind_at rest x
kind_at-out s rest x outside = let no : covers s x ≡ false = ground arith in rw no

-- The sections `u` and `v` in place of `s`: its first page, of another kind, and the others.
module _ (s u v : Section) (at_u : u.start ≡ s.start) (one : u.pages ≡ 1)
    (at_v : v.start ≡ s.start + 4096) (others : v.pages + 1 ≡ s.pages) where
  covers-first : (x : ℕ) → covers u x ≡ in_page s.start x
  covers-first x = ground arith

  covers-others : (x : ℕ) → covers v x ≡ (covers s x && not (in_page s.start x))
  covers-others x = ground arith

  cut_view :
      (b c : Bool) (k k' : ℕ) (o : Option ℕ)
      → (if b then some k else if (c && not b) then some k' else o)
        ≡ (if b then some k else if c then some k' else o)
  cut_view true c k k' o = refl
  cut_view false true k k' o = refl
  cut_view false false k k' o = refl

  pub cut-view :
      (rest : List Section) (x : ℕ)
      → v.kind ≡ s.kind
      → kind_at (u ∷ v ∷ rest) x ≡ with_page u.kind s.start (s ∷ rest) x
  cut-view rest x same = rw (
    covers-first x,
    covers-others x,
    same,
    cut_view (in_page s.start x) (covers s x) u.kind s.kind (kind_at rest x),
  )

  pub cut-Tiles : (a : ℕ) (rest : List Section) → Tiles a (s ∷ rest) → Tiles a (u ∷ v ∷ rest)
  cut-Tiles a rest tiles =
      let same : a + s.pages * 4096 ≡ a + u.pages * 4096 + v.pages * 4096 =
        omega (arith, one, others) in
      (
        at_u ∙ tiles.0,
        omega (arith, tiles.1),
        (omega (arith, tiles.0), omega (arith, tiles.1), subst (λ b. Tiles b rest) same tiles.2),
      )

-- The sections `u` and `v` in place of `p` and `s`: the first page of `s` goes to `p`.
module _ (p s u v : Section) (at_u : u.start ≡ p.start) (more : u.pages ≡ p.pages + 1)
    (at_s : s.start ≡ limit p) (at_v : v.start ≡ s.start + 4096)
    (others : v.pages + 1 ≡ s.pages) where
  covers-more : (x : ℕ) → covers u x ≡ (covers p x || in_page s.start x)
  covers-more x = ground arith

  covers-less : (x : ℕ) → covers v x ≡ (covers s x && not (in_page s.start x))
  covers-less x = ground arith

  give_view :
      (b c d : Bool) (k k' : ℕ) (o : Option ℕ)
      → (if (c || b) then some k else if (d && not b) then some k' else o)
        ≡ (if b then some k else if c then some k else if d then some k' else o)
  give_view true true d k k' o = refl
  give_view true false d k k' o = refl
  give_view false true d k k' o = refl
  give_view false false true k k' o = refl
  give_view false false false k k' o = refl

  pub give-view :
      (rest : List Section) (x : ℕ)
      → u.kind ≡ p.kind
      → v.kind ≡ s.kind
      → kind_at (u ∷ v ∷ rest) x ≡ with_page p.kind s.start (p ∷ s ∷ rest) x
  give-view rest x same same' = rw (
    covers-more x,
    covers-less x,
    same,
    same',
    give_view (in_page s.start x) (covers p x) (covers s x) p.kind s.kind (kind_at rest x),
  )

  pub give-Tiles : (a : ℕ) (rest : List Section) → Tiles a (p ∷ s ∷ rest) → Tiles a (u ∷ v ∷ rest)
  give-Tiles a rest tiles =
      let same : a + p.pages * 4096 + s.pages * 4096 ≡ a + u.pages * 4096 + v.pages * 4096 =
        omega (arith, more, others) in
      (
        at_u ∙ tiles.0,
        omega (arith, tiles.2.1),
        (
          omega (arith, tiles.0),
          omega (arith, tiles.2.1),
          subst (λ b. Tiles b rest) same tiles.2.2,
        ),
      )

-- A section of one page changes its kind.
pub mark-view :
    (s : Section) (kind : ℕ) (rest : List Section) (x : ℕ)
    → s.pages ≡ 1
    → kind_at (record s { kind = kind } ∷ rest) x ≡ with_page kind s.start (s ∷ rest) x
mark-view s kind rest x one =
    let whole : covers s x ≡ in_page s.start x = ground arith in
    rw whole (twice (in_page s.start x))
  where
    twice :
        (b : Bool)
        → (if b then some kind else kind_at rest x)
          ≡ (if b then some kind else if b then some s.kind else kind_at rest x)
    twice true = refl
    twice false = refl

-- A change behind a section that the page is not in.
pub with_page-cons :
    (p : Section) (kind page : ℕ) (l l' : List Section) (x : ℕ)
    → limit p ≤ page
    → kind_at l' x ≡ with_page kind page l x
    → kind_at (p ∷ l') x ≡ with_page kind page (p ∷ l) x
with_page-cons p kind page l l' x behind e = elim (Bool-cases (covers p x)) [
  | inl within ↦ let no : in_page page x ≡ false = ground arith in rw (within, no) refl
  | inr out ↦ rw (out, e) refl
]
