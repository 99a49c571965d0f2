-- ===== src/Pmm/Added.antt =====
-- One entry of the memory map added to the sections by `pmm_start`.
use skylight.Base.{
  ℕ, ◌+◌, ◌-◌, ◌*◌, ◌%◌, ◌^◌, ◌≤◌, ◌<◌, ◌≡◌, refl, ◌≢◌, inl, inr, true, false, ◌&&◌, List, [], ◌∷◌,
  Option, some, ◌==◌, ltb, leb, if◌then◌else◌, arith, length, sub64, ◌∙◌, ap, ==_of_eq, ==_of_ne,
  le_or_lt,
}
use mathlib.Core.Path.{subst}
use skylight.Pmm.{Section, Table, section_size, section_bad, end_of_section, slots_of, new_section}
use skylight.Pmm.Start.{
  Entry, pmm_interpret_signal, pages_of, linked_slots, entry_section, add_entry,
}
use skylight.Pmm.Room.{Below, Below-suc, new_section-room}
use skylight.Pmm.View.{kind_at, covers}
use skylight.Pmm.Built.{Stacked, lies_in}

Below-linked_slots :
    (h : ℕ) (current : Section) (before : List Section)
    → Below h (slots_of (current ∷ before))
    → Below h (linked_slots current before)
Below-linked_slots h current [] low = tt
Below-linked_slots h current (p ∷ before) low = low

-- What adding an entry comes to.
abbrev pub Added :
    (end : ℕ) → Entry → List Section → Table → Option (Section × List Section × Table) → Type 0
Added end e l t o =
    (c : Section) × (before : List Section) × (t' : Table) × (o ≡ some (c, before, t'))
    × Stacked (e.base + e.length) (c ∷ before)
    × (0 < c.pages)
    × Below t'.head (slots_of (c ∷ before))
    × (t'.head ≤ t.head + 2)
    × (length (c ∷ before) ≤ length l + 2)
    × (t'.data_size ≡ t.data_size)
    × ((x : ℕ)
        → kind_at (c ∷ before) x ≡ (
            if lies_in e x
            then some (pmm_interpret_signal e.signal)
            else if (leb end x && ltb x e.base)
            then some section_bad
            else kind_at l x))

module _ (end : ℕ) (e : Entry) (current : Section) (before : List Section) (t : Table)
    (stacked : Stacked end (current ∷ before)) (some_pages : 0 < current.pages)
    (after : end ≤ e.base) (some_length : 0 < e.length) (aligned : e.length % 0x1000 ≡ 0)
    (fits : e.base + e.length ≤ 2 ^ 63) (low : Below t.head (slots_of (current ∷ before)))
    (room : (t.head + 2) * section_size ≤ t.data_size) where
  further : e.base ≢ current.start
  further = omega (arith, stacked.0)

  end-limit : end_of_section current ≡ end
  end-limit = omega (arith, stacked.0, stacked.1)

  size : pages_of e.length * 0x1000 ≡ e.length
  size = rw (==_of_eq _ _ aligned) (omega arith)

  first_slot :
      new_section (linked_slots current before) t ≡ some (t.head, record t { head = t.head + 1 })
  first_slot =
      new_section-room (linked_slots current before) t
        (Below-linked_slots t.head current before low, omega arith)

  covers-entry : (slot x : ℕ) → covers (entry_section slot e) x ≡ lies_in e x
  covers-entry slot x = ap (λ n. leb e.base x && ltb x (e.base + n)) size

  add_entry-next : end ≡ e.base → Added end e (current ∷ before) t (add_entry e current before t)
  unfolding add_entry
  add_entry-next next =
      let c = entry_section t.head e in
      let meets : (end_of_section current == e.base) ≡ true = ==_of_eq _ _ (end-limit ∙ next) in
      rw (add_entry, ==_of_ne _ _ further, first_slot, meets)
        (
          c,
          current ∷ before,
          record t { head = t.head + 1 },
          refl,
          (ap (λ n. e.base + n) size, fits, subst (λ a. Stacked a (current ∷ before)) next stacked),
          omega (arith, size),
          (omega arith, Below-suc t.head (slots_of (current ∷ before)) low),
          omega arith,
          omega arith,
          refl,
          λ x.
              let no_gap : (leb end x && ltb x e.base) ≡ false = ground (arith, next) in
              rw (covers-entry t.head x, no_gap) refl,
        )

  module _ (apart : end < e.base) (aligned_base : e.base % 0x1000 ≡ 0)
      (aligned_end : end % 0x1000 ≡ 0) where
    gap_size : pages_of (sub64 e.base end) * 0x1000 ≡ e.base - end
    gap_size =
        let distance : sub64 e.base end ≡ e.base - end = omega arith in
        let whole : (e.base - end) % 0x1000 ≡ 0 = omega arith in
        rw (distance, ==_of_eq _ _ whole) (omega arith)

    -- The gap behind a section that ends at `a`.
    hole_at : ℕ → Section
    hole_at a = record {
      slot = t.head + 1;
      start = a;
      pages = pages_of (sub64 e.base a);
      kind = section_bad;
    }

    hole : Section
    hole = hole_at end

    covers-hole : (x : ℕ) → covers hole x ≡ (leb end x && ltb x e.base)
    unfolding hole hole_at
    covers-hole x =
        let up : end + (e.base - end) ≡ e.base = omega arith in
        ap (λ n. leb end x && ltb x (end + n)) gap_size ∙ ap (λ n. leb end x && ltb x n) up

    second_slot :
        new_section (t.head ∷ slots_of (current ∷ before)) (record t { head = t.head + 1 })
        ≡ some (t.head + 1, record t { head = t.head + 1 + 1 })
    second_slot =
        new_section-room (t.head ∷ slots_of (current ∷ before)) (record t { head = t.head + 1 })
          ((omega arith, Below-suc t.head (slots_of (current ∷ before)) low), omega arith)

    add_entry-gap : Added end e (current ∷ before) t (add_entry e current before t)
    unfolding add_entry hole hole_at
    add_entry-gap =
        let c = entry_section t.head e in
        let misses : (end == e.base) ≡ false = ==_of_ne _ _ (omega arith) in
        rw (add_entry, ==_of_ne _ _ further, first_slot, end-limit, misses, second_slot)
          (
            c,
            hole ∷ current ∷ before,
            record t { head = t.head + 1 + 1 },
            ap (λ a. some (c, hole_at a ∷ current ∷ before, record t { head = t.head + 1 + 1 }))
                end-limit,
            (ap (λ n. e.base + n) size, fits, (omega (arith, gap_size), omega arith, stacked)),
            omega (arith, size),
            (
              omega arith,
              (
                omega arith,
                Below-suc (t.head + 1) (slots_of (current ∷ before))
                    (Below-suc t.head (slots_of (current ∷ before)) low),
              ),
            ),
            omega arith,
            omega arith,
            refl,
            λ x. rw (covers-entry t.head x, covers-hole x) refl,
          )

pub add_entry_lem :
    (end : ℕ) (e : Entry) (current : Section) (before : List Section) (t : Table)
    → Stacked end (current ∷ before)
    → 0 < current.pages
    → end ≤ e.base
    → 0 < e.length
    → e.base % 0x1000 ≡ 0
    → e.length % 0x1000 ≡ 0
    → e.base + e.length ≤ 2 ^ 63
    → end % 0x1000 ≡ 0
    → Below t.head (slots_of (current ∷ before))
    → (t.head + 2) * section_size ≤ t.data_size
    → Added end e (current ∷ before) t (add_entry e current before t)
add_entry_lem end e current before t stacked some_pages after some_length aligned_base aligned fits
      aligned_end low room =
    elim (le_or_lt e.base end) [
      | inl meets ↦
          add_entry-next end e current before t stacked some_pages after some_length aligned fits
            low room (omega arith)
      | inr apart ↦
          add_entry-gap end e current before t stacked some_pages after some_length aligned fits low
            room apart aligned_base aligned_end
    ]
