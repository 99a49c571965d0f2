-- ===== src/Pmm/FromMap.antt =====
-- All the sections that `pmm_start` makes, joined by `pmm_recombine`.
use skylight.Base.{
  ℕ, ◌+◌, ◌*◌, ◌%◌, ◌≤◌, ◌<◌, ◌≡◌, refl, inl, inr, true, false, ◌&&◌, List, [], ◌∷◌, Option, none,
  some, ltb, leb, if◌then◌else◌, arith, length, ◌∙◌, ap, sym, ==_of_eq, lt→leb, le→leb, lt→ltb,
  le→ltb, le_or_lt,
}
use skylight.Pmm.{Section, Table, section_size, section_bad, slots_of, pmm_recombine}
use skylight.Pmm.Start.{
  Entry, pmm_interpret_signal, add_entry, add_entries, forwards, first_section, build_sections,
}
use skylight.Pmm.Room.{Below}
use skylight.Pmm.View.{kind_at, Tiles}
use skylight.Pmm.Recombine.{Apart, pmm_recombine_lem}
use skylight.Pmm.Built.{
  Stacked, Stacked-Tiles, Stacked-none, Stacked-forwards, Ordered, lies_in, map_kind, map_end,
  map_end-le, map_kind-below,
}
use skylight.Pmm.Added.{add_entry_lem}

-- The kind of an address by the map, below the end of its last entry.
abbrev pub kind_in_map : (end : ℕ) → List Entry → ℕ → Option ℕ
kind_in_map end entries x = if ltb x (map_end end entries) then some (map_kind entries x) else none

abbrev AddsAll :
    (end : ℕ) → List Entry → List Section → Option (Section × List Section × Table) → Type 0
AddsAll end entries l o =
    (c : Section) × (before : List Section) × (t' : Table) × (o ≡ some (c, before, t'))
    × Stacked (map_end end entries) (c ∷ before)
    × (length (c ∷ before) ≤ length l + 2 * length entries)
    × ((x : ℕ)
        → kind_at (c ∷ before) x ≡ (if ltb x end then kind_at l x else kind_in_map end entries x))

-- The view behind one entry more.
entry-view :
    (end : ℕ) (e : Entry) (entries : List Entry) (old : Option ℕ) (x : ℕ)
    → Ordered end (e ∷ entries)
    → (if ltb x (e.base + e.length)
        then (if lies_in e x
            then some (pmm_interpret_signal e.signal)
            else if (leb end x && ltb x e.base)
            then some section_bad
            else old)
        else kind_in_map (e.base + e.length) entries x)
      ≡ (if ltb x end then old else kind_in_map end (e ∷ entries) x)
entry-view end e entries old x ordered =
    let (after, some_length, a, b, fits, rest) = ordered in
    let far = map_end-le (e.base + e.length) entries rest in
    elim (le_or_lt (e.base + e.length) x) [
      | inl over ↦
          let out : lies_in e x ≡ false = ground arith in
          rw (out, le→ltb x (e.base + e.length) over, le→ltb x end (omega arith)) refl
      | inr under ↦ elim (le_or_lt e.base x) [
        | inl within ↦
            let here : lies_in e x ≡ true = ground arith in
            rw
              (
                here,
                lt→ltb x (e.base + e.length) under,
                le→ltb x end (omega arith),
                lt→ltb x (map_end (e.base + e.length) entries) (omega arith),
              )
              refl
        | inr low ↦
            let out : lies_in e x ≡ false = ground arith in
            elim (le_or_lt end x) [
              | inl gap ↦
                  rw
                    (
                      out,
                      lt→ltb x (e.base + e.length) under,
                      le→leb end x gap,
                      lt→ltb x e.base low,
                      le→ltb x end gap,
                      lt→ltb x (map_end (e.base + e.length) entries) (omega arith),
                      map_kind-below (e.base + e.length) entries x rest under,
                    )
                    refl
              | inr below ↦
                  rw
                    (
                      out,
                      lt→ltb x (e.base + e.length) under,
                      lt→leb end x below,
                      lt→ltb x end below,
                    )
                    refl
            ]
      ]
    ]

add_entries_lem :
    (entries : List Entry) (end : ℕ) (current : Section) (before : List Section) (t : Table)
    → Stacked end (current ∷ before)
    → 0 < current.pages
    → end % 0x1000 ≡ 0
    → Ordered end entries
    → Below t.head (slots_of (current ∷ before))
    → (t.head + 2 * length entries) * section_size ≤ t.data_size
    → AddsAll end entries (current ∷ before) (add_entries entries current before t)
unfolding add_entries
add_entries_lem [] end current before t stacked pages aligned ordered low room = (
  current,
  before,
  t,
  refl,
  stacked,
  omega arith,
  λ x. elim (le_or_lt end x) [
    | inl over ↦ rw (le→ltb x end over) (Stacked-none end (current ∷ before) x stacked over)
    | inr under ↦ rw (lt→ltb x end under) refl
  ],
)
add_entries_lem (e ∷ entries) end current before t stacked pages aligned ordered low room =
    let (after, some_length, aligned_base, aligned_length, fits, rest) = ordered in
    let (c, b, t', ran, stacked', pages', low', grown, longer, same, view) =
      add_entry_lem end e current before t stacked pages after some_length aligned_base
        aligned_length fits aligned low (omega arith) in
    let (c', b', u, ran', stacked'', longer', view') =
      add_entries_lem entries (e.base + e.length) c b t' stacked' pages' (omega arith) rest low'
        (omega arith) in
    (
      c',
      b',
      u,
      rw (add_entries, ran) ran',
      stacked'',
      omega arith,
      λ x.
          view' x
          ∙ ap
              (λ o.
                if ltb x (e.base + e.length) then o else kind_in_map (e.base + e.length) entries x)
              (view x)
          ∙ entry-view end e entries (kind_at (current ∷ before) x) x ordered,
    )

-- The sections in the order of their addresses: one behind another from 0 on, no neighbours of a
-- kind, and each address of the kind that the map gives it, behind the first mebibyte.
abbrev pub FromMap : List Entry → Option (List Section × Table) → Type 0
FromMap entries o =
    (sections : List Section) × (t' : Table) × (o ≡ some (sections, t'))
    × Tiles 0 sections
    × Apart sections
    × ((x : ℕ)
        → kind_at sections x
          ≡ (if ltb x 0x100000 then some section_bad else kind_in_map 0x100000 entries x))

first-Stacked : Stacked 0x100000 (first_section ∷ [])
first-Stacked = (omega arith, omega arith, refl)

first-view :
    (x : ℕ) (behind : Option ℕ)
    → (if ltb x 0x100000 then kind_at (first_section ∷ []) x else behind)
      ≡ (if ltb x 0x100000 then some section_bad else behind)
first-view x behind = elim (le_or_lt 0x100000 x) [
  | inl over ↦ rw (le→ltb x 0x100000 over) refl
  | inr under ↦ rw (le→leb 0 x (omega arith), lt→ltb x 0x100000 under) refl
]

length-forwards : (l after : List Section) → length (forwards l after) ≡ length l + length after
length-forwards [] after = omega arith
length-forwards (s ∷ l) after = omega (arith, length-forwards l (s ∷ after))

forwards-view :
    (end : ℕ) (l : List Section) (x : ℕ) → Stacked end l → kind_at (forwards l []) x ≡ kind_at l x
forwards-view end l x stacked = elim (le_or_lt end x) [
  | inl over ↦
      Stacked-forwards end l [] x stacked tt
      ∙ rw (le→ltb x end over) (sym (Stacked-none end l x stacked over))
  | inr under ↦ Stacked-forwards end l [] x stacked tt ∙ rw (lt→ltb x end under) refl
]

build_sections-first :
    (rounds : ℕ) (first : Entry) (entries : List Entry) (t t' : Table) (c : Section)
    (before sections : List Section)
    → first.base ≡ 0
    → add_entries entries first_section [] t ≡ some (c, before, t')
    → pmm_recombine rounds (forwards (c ∷ before) []) ≡ some sections
    → build_sections rounds (first ∷ entries) t ≡ some (sections, t')
unfolding build_sections add_entries add_entry
build_sections-first rounds first entries t t' c before sections at_zero ran joined =
    rw (build_sections, add_entries, add_entry, ==_of_eq first.base 0 at_zero, ran, joined) refl

-- From a memory map whose first entry begins at 0, and whose other entries are whole pages, not
-- empty, in the order of their addresses from 0x100000 on and in the lower half of the addresses,
-- with a slot for the first section and two for each other entry, and two rounds for each entry
-- and two more, the sections that `pmm_start` makes lie behind one another from 0 on, no two
-- neighbours are of the same kind, and each address below the end of the last entry is of the kind
-- that the map gives it: the first mebibyte and what no entry holds is bad. At and behind that
-- end, and behind the first mebibyte, there is no section.
pub build_sections_lem :
    (rounds : ℕ) (first : Entry) (entries : List Entry) (t : Table)
    → first.base ≡ 0
    → Ordered 0x100000 entries
    → 0 < t.head
    → (t.head + 2 * length entries) * section_size ≤ t.data_size
    → 2 * length entries + 2 ≤ rounds
    → FromMap entries (build_sections rounds (first ∷ entries) t)
build_sections_lem rounds first entries t at_zero ordered positive room enough =
    let (c, before, t', ran, stacked, longer, view) =
      add_entries_lem entries 0x100000 first_section [] t first-Stacked (omega arith) (omega arith)
        ordered (positive, tt) room in
    let end = map_end 0x100000 entries in
    let tiles = Stacked-Tiles end (c ∷ before) [] stacked tt in
    let count = length-forwards (c ∷ before) [] in
    let (sections, joined, same, apart) =
      pmm_recombine_lem rounds 0 (forwards (c ∷ before) []) tiles
        (omega (arith, count, longer, enough)) in
    (
      sections,
      t',
      build_sections-first rounds first entries t t' c before sections at_zero ran joined,
      same.0,
      apart,
      λ x.
          same.1 x
          ∙ forwards-view end (c ∷ before) x stacked
          ∙ view x
          ∙ first-view x (kind_in_map 0x100000 entries x),
    )
