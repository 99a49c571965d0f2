-- ===== src/Boot/Clip.antt =====
-- The cut below the first mebibyte.
use skylight.Base.{
  ℕ, ◌+◌, ◌-◌, ◌^◌, ◌≤◌, ◌<◌, ◌≡◌, refl, inl, inr, true, false, List, [], ◌∷◌, if◌then◌else◌, ltb,
  arith, ap, ◌∙◌, add64, sub64, lt→ltb, le→ltb, le_or_lt,
}
use skylight.Pmm.{section_bad}
use skylight.Pmm.Start.{Entry, pmm_interpret_signal}
use skylight.Pmm.Built.{lies_in, map_kind}
use skylight.Boot.{mebibyte, memory_map_nouse, clip_low, clip_map}

-- Entries in the lower half of the addresses, in the order of their beginnings.
abbrev pub Sorted : ℕ → List Entry → Type 0
Sorted low [] = Unit {0}
Sorted low (e ∷ entries) = (low ≤ e.base) × (e.base + e.length ≤ 2 ^ 63) × Sorted e.base entries

Sorted-below :
    (low : ℕ) (entries : List Entry) (x : ℕ)
    → Sorted low entries
    → x < low
    → map_kind entries x ≡ section_bad
Sorted-below low [] x sorted h = refl
Sorted-below low (e ∷ entries) x sorted h =
    let out : lies_in e x ≡ false = ground (arith, sorted.0) in
    rw out (Sorted-below e.base entries x sorted.2 (omega (arith, sorted.0)))

-- The map without an entry that does not cover the address, and with one that does.
lies_out :
    (e : Entry) (entries : List Entry) (x : ℕ)
    → lies_in e x ≡ false
    → map_kind (e ∷ entries) x ≡ map_kind entries x
lies_out e entries x out = rw out refl

-- The clipped map of an entry that begins below the first mebibyte.
module _ (e : Entry) (entries : List Entry) (under : e.base < mebibyte)
    (fits : e.base + e.length ≤ 2 ^ 63) where
  clip_low-all :
      e.base + e.length < mebibyte
      → clip_low (e ∷ entries)
        ≡ record e { length = 0; signal = memory_map_nouse } ∷ clip_low entries
  unfolding clip_low
  clip_low-all all =
      rw
        (
          clip_low,
          lt→ltb e.base mebibyte under,
          lt→ltb (add64 e.base e.length) mebibyte (omega arith),
        )
        refl

  clip_low-over :
      mebibyte ≤ e.base + e.length
      → clip_low (e ∷ entries)
        ≡ record e { base = mebibyte; length = e.base + e.length - mebibyte } ∷ clip_low entries
  unfolding clip_low
  clip_low-over over =
      let left : sub64 e.length (sub64 mebibyte e.base) ≡ e.base + e.length - mebibyte =
        omega arith in
      rw
        (
          clip_low,
          lt→ltb e.base mebibyte under,
          le→ltb (add64 e.base e.length) mebibyte (omega arith),
          left,
        )
        refl

  module _ (x : ℕ)
      (rest : map_kind (clip_low entries) x
        ≡ (if ltb x mebibyte then section_bad else map_kind entries x)) where
    all-view :
        e.base + e.length < mebibyte
        → map_kind (clip_low (e ∷ entries)) x
          ≡ (if ltb x mebibyte then section_bad else map_kind (e ∷ entries) x)
    all-view all =
        let emptied = record e { length = 0; signal = memory_map_nouse } in
        let out : lies_in emptied x ≡ false = ground arith in
        ap (λ l. map_kind l x) (clip_low-all all)
        ∙ lies_out emptied (clip_low entries) x out
        ∙ rest
        ∙ elim (le_or_lt mebibyte x) [
          | inl high ↦
              let gone : lies_in e x ≡ false = ground arith in
              rw (le→ltb x mebibyte high, gone) refl
          | inr low ↦ rw (lt→ltb x mebibyte low) refl
        ]

    over-view :
        mebibyte ≤ e.base + e.length
        → map_kind (clip_low (e ∷ entries)) x
          ≡ (if ltb x mebibyte then section_bad else map_kind (e ∷ entries) x)
    over-view over =
        let cut = record e { base = mebibyte; length = e.base + e.length - mebibyte } in
        ap (λ l. map_kind l x) (clip_low-over over) ∙ elim (le_or_lt mebibyte x) [
          | inl high ↦
              let same : lies_in cut x ≡ lies_in e x = ground arith in
              let behind : map_kind (clip_low entries) x ≡ map_kind entries x =
                rest ∙ rw (le→ltb x mebibyte high) refl in
              ap (λ b. if b then pmm_interpret_signal e.signal else map_kind (clip_low entries) x)
                same
              ∙ ap (λ k. if lies_in e x then pmm_interpret_signal e.signal else k) behind
              ∙ rw (le→ltb x mebibyte high) refl
          | inr low ↦
              let out : lies_in cut x ≡ false = ground arith in
              lies_out cut (clip_low entries) x out ∙ rest ∙ rw (lt→ltb x mebibyte low) refl
        ]

clip_low-high :
    (e : Entry) (entries : List Entry) → mebibyte ≤ e.base → clip_low (e ∷ entries) ≡ e ∷ entries
unfolding clip_low
clip_low-high e entries high = rw (clip_low, le→ltb e.base mebibyte high) refl

-- Below the first mebibyte nothing is left, and from there on nothing is changed.
map_kind-clip_low :
    (low : ℕ) (entries : List Entry) (x : ℕ)
    → Sorted low entries
    → map_kind (clip_low entries) x ≡ (if ltb x mebibyte then section_bad else map_kind entries x)
unfolding clip_low
map_kind-clip_low low [] x sorted = elim (le_or_lt mebibyte x) [
  | inl high ↦ rw (le→ltb x mebibyte high) refl
  | inr under ↦ rw (lt→ltb x mebibyte under) refl
]
map_kind-clip_low low (e ∷ entries) x sorted = elim (le_or_lt mebibyte e.base) [
  | inl high ↦ ap (λ l. map_kind l x) (clip_low-high e entries high) ∙ elim (le_or_lt mebibyte x) [
    | inl above ↦ rw (le→ltb x mebibyte above) refl
    | inr under ↦
        Sorted-below e.base (e ∷ entries) x (omega arith, sorted.1, sorted.2) (omega arith)
        ∙ rw (lt→ltb x mebibyte under) refl
  ]
  | inr under ↦ elim (le_or_lt mebibyte (e.base + e.length)) [
    | inl over ↦
        over-view e entries under sorted.1 x (map_kind-clip_low e.base entries x sorted.2) over
    | inr all ↦
        all-view e entries under sorted.1 x (map_kind-clip_low e.base entries x sorted.2) all
  ]
]

-- For a memory map whose entries behind the first lie in the lower half of the addresses and begin
-- one not before the other, in the map that the kernel makes of it each address below the first
-- mebibyte is bad, and each other address is of the kind that the entries behind the first give
-- it.
pub map_kind-clip_map :
    (first : Entry) (low : ℕ) (entries : List Entry) (x : ℕ)
    → Sorted low entries
    → map_kind (clip_map (first ∷ entries)) x
      ≡ (if ltb x mebibyte then section_bad else map_kind entries x)
unfolding clip_map pmm_interpret_signal
map_kind-clip_map first low entries x sorted =
    let new : Entry = record { base = 0; length = mebibyte; signal = memory_map_nouse } in
    elim (le_or_lt mebibyte x) [
      | inl high ↦
          let out : lies_in new x ≡ false = ground arith in
          lies_out new (clip_low entries) x out ∙ map_kind-clip_low low entries x sorted
      | inr under ↦
          let here : lies_in new x ≡ true = ground arith in rw (here, lt→ltb x mebibyte under) refl
    ]
