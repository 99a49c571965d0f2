-- ===== src/Pmm/Recombine.antt =====
-- `pmm_recombine` and `pmm_recalculate_free_memory`
use skylight.Base.{
  ℕ, zero, suc, ◌+◌, ◌*◌, ◌^◌, ◌≤◌, ◌<◌, ◌≡◌, refl, ◌≢◌, ◌⊎◌, inl, inr, Bool, true, false, ◌||◌,
  List, [], ◌∷◌, Option, some, if◌then◌else◌, arith, length, add64, ◌∙◌, ap, ==_of_eq, ==_of_ne,
  eq_or_ne,
}
use mathlib.Core.Path.{subst}
use skylight.Pmm.{Section, absorb, recombine_pass, pmm_recombine}
use skylight.Pmm.View.{kind_at, Tiles, covers}

-- No two neighbours are of the same kind.
abbrev pub Apart : List Section → Type 0
Apart [] = Unit {0}
Apart (s ∷ []) = Unit {0}
Apart (s ∷ n ∷ rest) = (s.kind ≢ n.kind) × Apart (n ∷ rest)

-- The same memory in other sections.
abbrev pub Same : ℕ → List Section → List Section → Type 0
Same a l l' = Tiles a l' × ((x : ℕ) → kind_at l' x ≡ kind_at l x)

-- The joined section covers what the two covered.
covers-absorb :
    (a : ℕ) (c n : Section) (x : ℕ)
    → c.start ≡ a
    → n.start ≡ a + c.pages * 4096
    → a + c.pages * 4096 + n.pages * 4096 ≤ 2 ^ 63
    → covers (absorb c n) x ≡ (covers c x || covers n x)
covers-absorb a c n x at_c at_n fits =
    let sum : add64 c.pages n.pages ≡ c.pages + n.pages = omega arith in ground (arith, sum)

either :
    (b b' : Bool) (k k' : ℕ) (o : Option ℕ)
    → k ≡ k'
    → (if (b || b') then some k else o) ≡ (if b then some k else if b' then some k' else o)
either true b' k k' o e = refl
either false true k k' o e = ap some e
either false false k k' o e = refl

absorb-view :
    (a : ℕ) (c n : Section) (rest : List Section)
    → Tiles a (c ∷ n ∷ rest)
    → c.kind ≡ n.kind
    → Same a (c ∷ n ∷ rest) (absorb c n ∷ rest)
absorb-view a c n rest tiles same =
    let fits = tiles.2.1 in
    let sum : add64 c.pages n.pages ≡ c.pages + n.pages = omega arith in
    let next : a + c.pages * 4096 + n.pages * 4096 ≡ a + add64 c.pages n.pages * 4096 =
      omega arith in
    (
      (tiles.0, omega arith, subst (λ b. Tiles b rest) next tiles.2.2),
      λ x. rw (
        covers-absorb a c n x tiles.0 tiles.2.0 fits,
        either (covers c x) (covers n x) _ _ (kind_at rest x) same,
      ),
    )

Same-cons :
    (c : Section) (a : ℕ) (l l' : List Section)
    → Tiles a (c ∷ l)
    → Same (a + c.pages * 4096) l l'
    → Same a (c ∷ l) (c ∷ l')
Same-cons c a l l' tiles same = ((tiles.0, tiles.1, same.0), λ x. rw (same.1 x))

Same-trans : (a : ℕ) (l m r : List Section) → Same a l m → Same a m r → Same a l r
Same-trans a l m r one two = (two.0, λ x. two.1 x ∙ one.1 x)

-- What a pass over `l` comes to: fewer sections, or the same ones and no neighbours alike.
abbrev pub Passed : ℕ → List Section → Bool × List Section → Type 0
Passed a l r =
    Same a l r.1
    × (((r.0 ≡ true) × (length r.1 < length l)) ⊎ ((r.0 ≡ false) × (r.1 ≡ l) × Apart l))

Passed-next :
    (a : ℕ) (c n : Section) (rest : List Section) (r : Bool × List Section)
    → Tiles a (c ∷ n ∷ rest)
    → c.kind ≢ n.kind
    → Passed (a + c.pages * 4096) (n ∷ rest) r
    → Passed a (c ∷ n ∷ rest) (r.0, c ∷ r.1)
Passed-next a c n rest r tiles ne (same, inl (e, less)) =
    (Same-cons c a (n ∷ rest) r.1 tiles same, inl (e, omega arith))
Passed-next a c n rest r tiles ne (same, inr (e, still, apart)) =
    (Same-cons c a (n ∷ rest) r.1 tiles same, inr (e, ap (λ l. c ∷ l) still, (ne, apart)))

Passed-length :
    (a : ℕ) (l : List Section) (r : Bool × List Section) → Passed a l r → length r.1 ≤ length l
Passed-length a l r (same, inl (e, less)) = omega arith
Passed-length a l r (same, inr (e, still, apart)) = omega (arith, ap length still)

Passed-absorb :
    (a : ℕ) (c n m : Section) (rest : List Section) (r : Bool × List Section)
    → Tiles a (c ∷ n ∷ m ∷ rest)
    → c.kind ≡ n.kind
    → Passed (a + (absorb c n).pages * 4096) (m ∷ rest) r
    → Passed a (c ∷ n ∷ m ∷ rest) (true, absorb c n ∷ r.1)
Passed-absorb a c n m rest r tiles e passed =
    let one = absorb-view a c n (m ∷ rest) tiles e in
    let two = Same-cons (absorb c n) a (m ∷ rest) r.1 one.0 passed.0 in
    let short = Passed-length _ _ r passed in
    (
      Same-trans a (c ∷ n ∷ m ∷ rest) (absorb c n ∷ m ∷ rest) (absorb c n ∷ r.1) one two,
      inl (refl, omega arith),
    )

recombine_pass_lem :
    (a : ℕ) (c : Section) (rest : List Section)
    → Tiles a (c ∷ rest)
    → Passed a (c ∷ rest) (recombine_pass c rest)
unfolding recombine_pass
recombine_pass_lem a c [] tiles = ((tiles, λ x. refl), inr (refl, refl, tt))
recombine_pass_lem a c (n ∷ []) tiles = elim (eq_or_ne c.kind n.kind) [
  | inl e ↦ rw (==_of_eq _ _ e) (absorb-view a c n [] tiles e, inl (refl, omega arith))
  | inr ne ↦ rw (==_of_ne _ _ ne) ((tiles, λ x. refl), inr (refl, refl, (ne, tt)))
]
recombine_pass_lem a c (n ∷ m ∷ rest) tiles = elim (eq_or_ne c.kind n.kind) [
  | inl e ↦
      let tiled = (absorb-view a c n (m ∷ rest) tiles e).0.2 in
      rw (==_of_eq _ _ e) (
        Passed-absorb a c n m rest (recombine_pass m rest) tiles e
          (recombine_pass_lem (a + (absorb c n).pages * 4096) m rest tiled))
  | inr ne ↦ rw (==_of_ne _ _ ne) (
      Passed-next a c n (m ∷ rest) (recombine_pass n (m ∷ rest)) tiles ne
        (recombine_pass_lem (a + c.pages * 4096) n (m ∷ rest) tiles.2))
]

-- What `pmm_recombine` comes to.
abbrev pub Recombined : ℕ → List Section → Option (List Section) → Type 0
Recombined a l o = (l' : List Section) × (o ≡ some l') × Same a l l' × Apart l'

again :
    (a : ℕ) (l m : List Section) (o : Option (List Section))
    → Same a l m
    → Recombined a m o
    → Recombined a l o
again a l m o same (l', ran, same', apart) = (l', ran, Same-trans a l m l' same same', apart)

-- On sections that lie behind one another in the lower half of the addresses, `pmm_recombine` ends
-- within one round more than there are sections; then no two neighbours are of the same kind, the
-- sections still lie behind one another, and every address is of the kind it was.
pub pmm_recombine_lem :
    (rounds a : ℕ) (l : List Section)
    → Tiles a l
    → length l < rounds
    → Recombined a l (pmm_recombine rounds l)
unfolding pmm_recombine
pmm_recombine_lem zero a l tiles enough = absurd (omega arith)
pmm_recombine_lem (suc rounds) a [] tiles enough = ([], refl, (tt, λ x. refl), tt)
pmm_recombine_lem (suc rounds) a (s ∷ rest) tiles enough =
    let (same, outcome) = recombine_pass_lem a s rest tiles in
    elim outcome [
      | inl joined ↦ rw (joined.0) (
          again a (s ∷ rest) (recombine_pass s rest).1 _ same
            (pmm_recombine_lem rounds a _ same.0 (omega (arith, joined.1))))
      | inr kept ↦ rw (kept.0, kept.1) (s ∷ rest, refl, (tiles, λ x. refl), kept.2)
    ]
