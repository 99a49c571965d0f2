-- ===== src/Pmm/Built.antt =====
-- The sections that `pmm_start` makes from the memory map, against the map.
use skylight.Base.{
  ℕ, ◌+◌, ◌%◌, ◌^◌, ◌≤◌, ◌<◌, ◌≡◌, refl, inl, inr, Bool, false, ◌&&◌, List, [], ◌∷◌, none, ltb, leb,
  if◌then◌else◌, arith, ◌∙◌, sym, lt→ltb, le→ltb, le_or_lt,
}
use mathlib.Core.Path.{subst}
use skylight.Pmm.{Section, section_bad}
use skylight.Pmm.Start.{Entry, pmm_interpret_signal, forwards}
use skylight.Pmm.View.{kind_at, Tiles, limit, kind_at-in, kind_at-out}

-- The sections, latest first, end one where the next begins, down from `end` to 0.
abbrev pub Stacked : ℕ → List Section → Type 0
Stacked end [] = end ≡ 0
Stacked end (s ∷ before) = (limit s ≡ end) × (end ≤ 2 ^ 63) × Stacked s.start before

pub Stacked-Tiles :
    (end : ℕ) (l after : List Section)
    → Stacked end l
    → Tiles end after
    → Tiles 0 (forwards l after)
Stacked-Tiles end [] after stacked tiles = subst (λ e. Tiles e after) stacked tiles
Stacked-Tiles end (s ∷ before) after stacked tiles =
    Stacked-Tiles s.start before (s ∷ after) stacked.2
      (refl, omega (arith, stacked.0, stacked.1), subst (λ e. Tiles e after) (sym stacked.0) tiles)

-- Nothing lies at the end or behind it.
pub Stacked-none :
    (end : ℕ) (l : List Section) (x : ℕ) → Stacked end l → end ≤ x → kind_at l x ≡ none
Stacked-none end [] x stacked h = refl
Stacked-none end (s ∷ before) x stacked h =
    kind_at-out s before x (inr (omega (arith, stacked.0)))
    ∙ Stacked-none s.start before x stacked.2 (omega (arith, stacked.0))

-- The order in which the sections are read does not matter.
pub Stacked-forwards :
    (end : ℕ) (l after : List Section) (x : ℕ)
    → Stacked end l
    → Tiles end after
    → kind_at (forwards l after) x ≡ (if ltb x end then kind_at l x else kind_at after x)
Stacked-forwards end [] after x stacked tiles = rw (le→ltb x end (omega (arith, stacked))) refl
Stacked-forwards end (s ∷ before) after x stacked tiles =
    let here = subst (λ e. Tiles e after) (sym stacked.0) tiles in
    let rest =
      Stacked-forwards s.start before (s ∷ after) x stacked.2
        (refl, omega (arith, stacked.0, stacked.1), here) in
    elim (le_or_lt s.start x) [
      | inr low ↦
          rest
          ∙ rw (lt→ltb x s.start low, lt→ltb x end (omega (arith, stacked.0)))
              (sym (kind_at-out s before x (inl low)))
      | inl high ↦ elim (le_or_lt end x) [
        | inl over ↦
            rest
            ∙ rw (le→ltb x s.start high, le→ltb x end over)
                (kind_at-out s after x (inr (omega (arith, stacked.0))))
        | inr under ↦
            rest
            ∙ rw (le→ltb x s.start high, lt→ltb x end under)
                (kind_at-in s after x high (omega (arith, stacked.0))
                  ∙ sym (kind_at-in s before x high (omega (arith, stacked.0))))
      ]
    ]

-- Entries of whole pages in the order of their addresses, none of them empty.
abbrev pub Ordered : ℕ → List Entry → Type 0
Ordered end [] = Unit {0}
Ordered end (e ∷ entries) =
    (end ≤ e.base)
    × (0 < e.length)
    × (e.base % 0x1000 ≡ 0)
    × (e.length % 0x1000 ≡ 0)
    × (e.base + e.length ≤ 2 ^ 63)
    × Ordered (e.base + e.length) entries

abbrev pub lies_in : Entry → ℕ → Bool
lies_in e x = leb e.base x && ltb x (e.base + e.length)

-- What the map says of an address; what no entry holds is bad.
abbrev pub map_kind : List Entry → ℕ → ℕ
map_kind [] x = section_bad
map_kind (e ∷ entries) x = if lies_in e x then pmm_interpret_signal e.signal else map_kind entries x

abbrev pub map_end : ℕ → List Entry → ℕ
map_end end [] = end
map_end end (e ∷ entries) = map_end (e.base + e.length) entries

pub map_end-le : (end : ℕ) (entries : List Entry) → Ordered end entries → end ≤ map_end end entries
map_end-le end [] ordered = omega arith
map_end-le end (e ∷ entries) ordered =
    let (low, some_length, a, b, fits, rest) = ordered in
    omega (arith, map_end-le (e.base + e.length) entries rest)

pub map_kind-below :
    (end : ℕ) (entries : List Entry) (x : ℕ)
    → Ordered end entries
    → x < end
    → map_kind entries x ≡ section_bad
map_kind-below end [] x ordered h = refl
map_kind-below end (e ∷ entries) x ordered h =
    let (low, some_length, a, b, fits, rest) = ordered in
    let out : lies_in e x ≡ false = ground arith in
    rw out (map_kind-below (e.base + e.length) entries x rest (omega arith))
