-- ===== src/Paging/Remap.antt =====
-- `paging_remap_page`
use skylight.Base.{
  ℕ, suc, ◌%◌, ◌≡◌, refl, arith, ◌∙◌, ap, sym, Bool, true, false, Option, some, if◌then◌else◌,
}
use skylight.Paging.{
  indexer_assign, Paging, address_bits, get_address, last_table, set_entry, invlpg,
  paging_walk_page, paging_remap_page,
}
use skylight.Paging.Walk.{uses_above, last_table-Alike, paging_walk_page-at}
use skylight.Paging.Way.{put_entry-all}
use skylight.Paging.Map.{paging_map_page_lem}
use skylight.Paging.Unmap.{paging_unmap_page-at, invlpg-Alike}
use skylight.Paging.Walk.{set_entry-Alike}

walk-invlpg : (v page : ℕ) (s : Paging) → paging_walk_page v (invlpg page s) ≡ paging_walk_page v s
unfolding paging_walk_page last_table invlpg
walk-invlpg v page s = refl

still_empty :
    (t i page u j : ℕ) (s : Paging)
    → s.tables u j ≡ 0
    → (invlpg page (set_entry t i 0 s)).tables u j ≡ 0
unfolding invlpg set_entry
still_empty t i page u j s =
    put_entry-all (λ d e. d ≡ 0 → e ≡ 0) s.tables t i 0 (λ _. refl) (λ d h. h) u j

-- The frame that `paging_map_page` is given.
frame-bits :
    (mask_first : Bool) (d : ℕ)
    → address_bits (get_address (if mask_first then d % 0x1000 else d))
      ≡ (if mask_first then 0 else get_address d)
unfolding get_address
frame-bits true d = omega arith
frame-bits false d = omega arith

-- The new page leads to the old frame, or to 0 where the flags were taken first.
abbrev pub Remapped : (mask_first : Bool) → (old new : ℕ) → Paging → Option (ℕ × Paging) → Type 0
Remapped mask_first old new s o =
    (s' : Paging) × (o ≡ some (new, s'))
    × (paging_walk_page new s' ≡ (if mask_first then 0 else paging_walk_page old s))

-- Where the tables on the ways of both addresses are present, the entry of the new one is 0, and
-- the entry of the old one does not lead to its tables, `paging_remap_page` returns the new
-- address, and a walk of it gives what the walk of the old one gave, if the address is read before
-- the flags are taken, and 0 if the flags are taken first.
pub paging_remap_page_lem :
    (rounds : ℕ) (mask_first : Bool) (old new p q : ℕ) (s : Paging)
    → last_table s (indexer_assign old) ≡ some p
    → last_table s (indexer_assign new) ≡ some q
    → uses_above s (indexer_assign new) p (indexer_assign old).pml1 ≡ false
    → s.tables q (indexer_assign new).pml1 ≡ 0
    → Remapped mask_first old new s (paging_remap_page (suc rounds) mask_first old new s)
unfolding paging_remap_page
paging_remap_page_lem rounds mask_first old new p q s at_old at_new unused empty =
    let i = (indexer_assign old).pml1 in
    let d = s.tables p i in
    let phys = get_address (if mask_first then d % 0x1000 else d) in
    let s1 = invlpg old (set_entry p i 0 s) in
    let alike = invlpg-Alike p i old s _ (set_entry-Alike p i 0 s) in
    let there = last_table-Alike p i s s1 alike (indexer_assign new) unused ∙ at_new in
    let (s2, ran, leads, others, memory, top) =
      paging_map_page_lem rounds new phys (d % 0x1000) q s1 there
        (still_empty p i old q (indexer_assign new).pml1 s empty) in
    let frame = ap (λ a. if mask_first then 0 else a) (sym (paging_walk_page-at s old p at_old)) in
    rw (paging_remap_page, at_old, paging_unmap_page-at s old p at_old, ran)
      (invlpg old s2, refl, walk-invlpg new old s2 ∙ leads ∙ frame-bits mask_first d ∙ frame)
