-- ===== src/Pmm/Release.antt =====
-- How the loop of `pmm_free_page` comes to the section of the page.
use skylight.Base.{
  ℕ, zero, suc, ◌+◌, ◌*◌, ◌≤◌, ◌<◌, ◌≡◌, refl, ◌≢◌, Bool, List, [], ◌∷◌, ◌++◌, Option, some, arith,
  length, ◌∙◌, ap, sym, length-append,
}
use mathlib.Core.Path.{subst}
use mathlib.Core.List.{append_assoc}
use skylight.Pmm.{Section, Table, Pmm, slots_of}
use skylight.Pmm.Freeing.{Walked, ahead}
use skylight.Pmm.Room.{Below, Below-append}
use skylight.Pmm.View.{kind_at, Tiles, with_page}

-- No section is empty.
abbrev pub Full : List Section → Type 0
Full [] = Unit {0}
Full (s ∷ rest) = (0 < s.pages) × Full rest

-- The section before the selected one, and those before that, once the loop has passed `front`.
abbrev pub last_of : List Section → List Section → List Section
last_of fr [] = fr
last_of fr (q ∷ front) = last_of (q ∷ []) front

abbrev pub init_of : List Section → List Section → List Section
init_of fr [] = []
init_of fr (q ∷ front) = fr ++ init_of (q ∷ []) front

pub last_of-snoc : (fr front : List Section) (p : Section) → last_of fr (front ++ p ∷ []) ≡ p ∷ []
last_of-snoc fr [] p = refl
last_of-snoc fr (q ∷ front) p = last_of-snoc (q ∷ []) front p

init_of-snoc_one :
    (q : Section) (front : List Section) (p : Section)
    → init_of (q ∷ []) (front ++ p ∷ []) ≡ q ∷ front
init_of-snoc_one q [] p = refl
init_of-snoc_one q (r ∷ front) p = ap (λ l. q ∷ l) (init_of-snoc_one r front p)

pub init_of-snoc : (front : List Section) (p : Section) → init_of [] (front ++ p ∷ []) ≡ front
init_of-snoc [] p = refl
init_of-snoc (q ∷ front) p = init_of-snoc_one q front p

Tiles-le :
    (a : ℕ) (front : List Section) (s : Section) (rest : List Section)
    → Tiles a (front ++ s ∷ rest)
    → a ≤ s.start
Tiles-le a [] s rest tiles = omega (arith, tiles.0)
Tiles-le a (q ∷ front) s rest tiles =
    let le = Tiles-le (a + q.pages * 4096) front s rest tiles.2 in omega arith

-- A loop over the sections, which passes those that the page is behind.
abbrev pub Loop : Type 0
Loop = (rounds : ℕ) → List ℕ → List Section → List Section → (page : ℕ) → Table → Option Walked

abbrev pub Passes : Loop → Type 0
Passes walk =
    (rounds : ℕ) (before : List ℕ) (fr : List Section) (q n : Section) (rest : List Section)
    (page : ℕ) (t : Table)
    → q.start ≢ page
    → n.start ≤ page
    → walk (suc rounds) before fr (q ∷ n ∷ rest) page t
      ≡ ahead fr (walk rounds (before ++ slots_of fr) (q ∷ []) (n ∷ rest) page t)

-- What the loop does at the section of the page.
abbrev pub Start : Type 0
Start = (before : List ℕ) → List Section → Section → List Section → Table → Option Walked

abbrev pub Begins : Loop → Start → Type 0
Begins walk start =
    (rounds : ℕ) (before : List ℕ) (fr : List Section) (s : Section) (rest : List Section)
    (t : Table)
    → 2 ≤ rounds
    → walk rounds before fr (s ∷ rest) s.start t ≡ start before fr s rest t

-- The loop at the section `s`, whatever the sections before it.
abbrev pub Ends :
    Loop → List Section → Section → List Section → ℕ → Table → Bool → List Section → Table → Type 0
Ends walk fr s rest page t r out t' =
    (rounds : ℕ) (before : List ℕ)
    → 2 ≤ rounds
    → Below t.head before
    → walk rounds before fr (s ∷ rest) page t ≡ some (r, out, t')

-- The loop passes what lies before the section.
pub walk-reach :
    (walk : Loop) (pass : Passes walk) (rounds a : ℕ) (before : List ℕ) (fr front : List Section)
    (s : Section) (rest : List Section) (page : ℕ) (t : Table) (r : Bool) (out : List Section)
    (t' : Table)
    → Tiles a (front ++ s ∷ rest)
    → Full front
    → s.start ≤ page
    → Below t.head before
    → Below t.head (slots_of fr)
    → Below t.head (slots_of front)
    → length front + 2 ≤ rounds
    → Ends walk (last_of fr front) s rest page t r out t'
    → walk rounds before fr (front ++ s ∷ rest) page t ≡ some (r, init_of fr front ++ out, t')
walk-reach walk pass rounds a before fr [] s rest page t r out t' tiles full le low low_fr low_front
      enough ends =
    ends rounds before (omega arith) low
walk-reach walk pass zero a before fr (q ∷ front) s rest page t r out t' tiles full le low low_fr
      low_front enough ends =
    absurd (omega arith)
walk-reach walk pass (suc rounds) a before fr (q ∷ []) s rest page t r out t' tiles full le low
      low_fr low_front enough ends =
    let ne : q.start ≢ page = omega (arith, tiles.0, tiles.2.0, full.0) in
    rw
      (
        pass rounds before fr q s rest page t ne le,
        ends rounds (before ++ slots_of fr) (omega arith)
            (Below-append t.head before (slots_of fr) low low_fr),
        append_assoc fr [] out,
      )
      refl
walk-reach walk pass (suc rounds) a before fr (q ∷ n ∷ front) s rest page t r out t' tiles full le
      low low_fr low_front enough ends =
    let far = Tiles-le (a + q.pages * 4096) (n ∷ front) s rest tiles.2 in
    let ne : q.start ≢ page = omega (arith, tiles.0, full.0) in
    let on =
      walk-reach walk pass rounds (a + q.pages * 4096) (before ++ slots_of fr) (q ∷ []) (n ∷ front)
        s rest page t r out t' tiles.2 full.1 le
        (Below-append t.head before (slots_of fr) low low_fr) (low_front.0, tt) low_front.1
        (omega arith) ends in
    rw
      (
        pass rounds before fr q n (front ++ s ∷ rest) page t ne (omega (arith, tiles.2.0)),
        on,
        append_assoc fr (init_of (q ∷ []) (n ∷ front)) out,
      )
      refl

-- The sections `p` and `s` behind `front`, none of those before `s` empty, and rounds enough.
pub record Placed (rounds a : ℕ) (front : List Section) (p s : Section) (rest : List Section)
    (t : Table) : Type 0 where
  pub tiles : Tiles a (front ++ p ∷ s ∷ rest)
  pub full : Full (front ++ p ∷ [])
  pub low : Below t.head (slots_of (front ++ p ∷ s ∷ rest))
  pub enough : length front + 3 ≤ rounds

pub Below-slots_of :
    (h : ℕ) (front l : List Section)
    → Below h (slots_of (front ++ l))
    → Below h (slots_of front) × Below h (slots_of l)
Below-slots_of h [] l low = (tt, low)
Below-slots_of h (q ∷ front) l low =
    let rest = Below-slots_of h front l low.1 in ((low.0, rest.0), rest.1)

-- A loop that the section behind `front` and `p` ends.
pub walk-at :
    (walk : Loop) (pass : Passes walk) (rounds a : ℕ) (front : List Section) (p s : Section)
    (rest : List Section) (page : ℕ) (t : Table) (r : Bool) (out : List Section) (t' : Table)
    → Placed rounds a front p s rest t
    → s.start ≤ page
    → Ends walk (p ∷ []) s rest page t r out t'
    → walk rounds [] [] (front ++ p ∷ s ∷ rest) page t ≡ some (r, front ++ out, t')
walk-at walk pass rounds a front p s rest page t r out t' placed le ends =
    let whole = append_assoc front (p ∷ []) (s ∷ rest) in
    let low =
      (Below-slots_of t.head (front ++ p ∷ []) (s ∷ rest)
        (subst (λ l. Below t.head (slots_of l)) (sym whole) placed.low)).0 in
    let count = length-append front (p ∷ []) in
    let walked =
      walk-reach walk pass rounds a [] [] (front ++ p ∷ []) s rest page t r out t'
        (subst (Tiles a) (sym whole) placed.tiles) placed.full le tt tt low
        (omega (arith, count, placed.enough))
        (subst (λ fr. Ends walk fr s rest page t r out t') (sym (last_of-snoc [] front p)) ends) in
    ap (λ l. walk rounds [] [] l page t) (sym whole)
    ∙ walked
    ∙ ap (λ l. some (r, l ++ out, t')) (init_of-snoc front p)

-- The page at the start of a section.
pub walk-start :
    (walk : Loop) (pass : Passes walk) (start : Start) (begins : Begins walk start) (rounds a : ℕ)
    (front : List Section) (p s : Section) (rest : List Section) (t : Table) (r : Bool)
    (out : List Section) (t' : Table)
    → Placed rounds a front p s rest t
    → ((before : List ℕ) → Below t.head before → start before (p ∷ []) s rest t ≡ some (r, out, t'))
    → walk rounds [] [] (front ++ p ∷ s ∷ rest) s.start t ≡ some (r, front ++ out, t')
walk-start walk pass start begins rounds a front p s rest t r out t' placed ends =
    walk-at walk pass rounds a front p s rest s.start t r out t' placed (omega arith)
      λ k before enough low. begins k before (p ∷ []) s rest t enough ∙ ends before low

-- The sections in which the page became of the kind, and the count of free memory as it was.
abbrev pub Retyped : (kind : ℕ) → ℕ → Pmm → ℕ → Option Pmm → Type 0
Retyped kind a m page o =
    (m' : Pmm) × (o ≡ some m')
    × Tiles a m'.sections
    × ((x : ℕ) → kind_at m'.sections x ≡ with_page kind page m.sections x)
    × (m'.free_memory ≡ m.free_memory)
