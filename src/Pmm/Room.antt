-- ===== src/Pmm/Room.antt =====
-- `pmm_new_section` and `pmm_section_split` while the table of sections has slots left.
use skylight.Base.{
  ℕ, ◌+◌, ◌-◌, ◌*◌, ◌/◌, ◌^◌, ◌≤◌, ◌<◌, ◌≡◌, refl, inl, inr, true, false, List, [], ◌∷◌, ◌++◌, some,
  leb, arith, add64, sub64, ==_of_ne, eq_or_ne, lt→leb, le→leb,
}
use skylight.Pmm.{
  Section, Table, is_linked, new_section, slots_of, end_of_section, section_size, paging_page_size,
}
use skylight.Pmm.Pages.{split, split_first, mark}
use skylight.Pmm.View.{kind_at, Tiles, with_page, mark-view, cut-view, cut-Tiles}

-- The slots lie below the head of the table, which has a slot left.
abbrev pub Below : ℕ → List ℕ → Type 0
Below head [] = Unit {0}
Below head (s ∷ ss) = (s < head) × Below head ss

abbrev pub HasRoom : List ℕ → Table → Type 0
HasRoom linked t = Below t.head linked × (t.head * section_size < t.data_size)

pub Below-append : (h : ℕ) (l m : List ℕ) → Below h l → Below h m → Below h (l ++ m)
Below-append h [] m low low' = low'
Below-append h (x ∷ l) m low low' = (low.0, Below-append h l m low.1 low')

pub Below-is_linked : (h : ℕ) (l : List ℕ) → Below h l → is_linked h l ≡ false
Below-is_linked h [] low = refl
Below-is_linked h (x ∷ l) low = rw (==_of_ne x h (omega (arith, low.0)), Below-is_linked h l low.1)

pub new_section-room :
    (linked : List ℕ) (t : Table)
    → HasRoom linked t
    → new_section linked t ≡ some (t.head, record t { head = t.head + 1 })
unfolding new_section
new_section-room linked t room =
    rw (lt→leb t.data_size (t.head * section_size) room.1, Below-is_linked t.head linked room.0)

pub Below-suc : (h : ℕ) (l : List ℕ) → Below h l → Below (h + 1) l
Below-suc h [] low = tt
Below-suc h (x ∷ l) low = (omega (arith, low.0), Below-suc h l low.1)

-- The sections `parts` in place of `s`, of which the first page is of the kind.
abbrev pub Split : Section → ℕ → List Section → Table → List Section → Table → Type 0
Split s kind rest t parts t' =
    Tiles s.start (parts ++ rest)
    × ((x : ℕ) → kind_at (parts ++ rest) x ≡ with_page kind s.start (s ∷ rest) x)
    × Below t'.head (slots_of (parts ++ rest))
    × (t.head ≤ t'.head)

-- How many pages `pmm_section_split` leaves where it splits behind the first page.
module _ (s : Section) (n : ℕ) (fits : s.start + s.pages * 4096 ≤ 2 ^ 63)
    (size : s.pages ≡ n + 1) where
  split-front :
      sub64 s.pages (sub64 (end_of_section s) (add64 s.start paging_page_size) / paging_page_size)
      ≡ 1
  split-front =
      let left : sub64 (end_of_section s) (add64 s.start paging_page_size) ≡ n * 4096 =
        omega arith in
      rw left (omega arith)

  split-back : sub64 s.pages (sub64 (add64 s.start paging_page_size) s.start / paging_page_size) ≡ n
  split-back =
      let first : sub64 (add64 s.start paging_page_size) s.start ≡ 4096 = omega arith in
      rw first (omega arith)

pub split_first-room :
    (s : Section) (kind : ℕ) (rest : List Section) (t : Table)
    → Tiles s.start (s ∷ rest)
    → 0 < s.pages
    → Below t.head (slots_of (s ∷ rest))
    → (parts : List Section) × (t' : Table) × ((linked : List ℕ)
        → HasRoom linked t
        → split_first linked s kind t ≡ some (parts, t'))
      × Split s kind rest t parts t'
unfolding split split_first
split_first-room s kind rest t tiles some_pages low = elim (eq_or_ne s.pages 1) [
  | inl one ↦
      let whole : leb (end_of_section s) (add64 s.start paging_page_size) ≡ true =
        le→leb _ _ (omega (arith, tiles.1)) in
      (
        mark kind (s ∷ []),
        t,
        λ linked room. rw (split_first, split, whole) refl,
        (tiles, λ x. mark-view s kind rest x one, low, omega arith),
      )
  | inr more ↦
      let larger : leb (end_of_section s) (add64 s.start paging_page_size) ≡ false =
        lt→leb _ _ (omega (arith, tiles.1)) in
      let front = split-front s (s.pages - 1) tiles.1 (omega arith) in
      let back = split-back s (s.pages - 1) tiles.1 (omega arith) in
      let at : add64 s.start paging_page_size ≡ s.start + 4096 = omega (arith, tiles.1) in
      let u = record s { pages = 1; kind = kind } in
      let v = record s { slot = t.head; start = s.start + 4096; pages = s.pages - 1 } in
      (
        u ∷ v ∷ [],
        record t { head = t.head + 1 },
        λ linked room.
            rw (split_first, split, larger, new_section-room linked t room, front, back, at) refl,
        (
          cut-Tiles s u v refl refl refl (omega arith) s.start rest tiles,
          λ x. cut-view s u v refl refl refl (omega arith) rest x refl,
          (omega (arith, low.0), (omega arith, Below-suc t.head (slots_of rest) low.1)),
          omega arith,
        ),
      )
]
