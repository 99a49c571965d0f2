-- ===== src/Paging/Unmap.antt =====
-- `paging_unmap_page`
use skylight.Base.{ℕ, ◌≡◌, refl, ◌∙◌, ap, false, some, ◌∷◌}
use skylight.Paging.{
  indexer_assign, Paging, address_bits, get_address, last_table, set_entry, invlpg,
  paging_walk_page, paging_unmap_page,
}
use skylight.Paging.Walk.{
  uses, uses_above, Alike, last_table-Alike, paging_walk_page-Alike, paging_walk_page-at,
  put_entry-same, set_entry-Alike,
}

-- The address is not mapped, and those whose way does not use its entry as they were.
abbrev pub Unmapped : (virt pt : ℕ) → Paging → Paging → Type 0
Unmapped virt pt s s' =
    (paging_walk_page virt s' ≡ 0)
    × ((v : ℕ)
        → uses s (indexer_assign v) pt (indexer_assign virt).pml1 ≡ false
        → paging_walk_page v s' ≡ paging_walk_page v s)
    × (s'.invalidated ≡ virt ∷ s.invalidated)

pub paging_unmap_page-at :
    (s : Paging) (virt pt : ℕ)
    → last_table s (indexer_assign virt) ≡ some pt
    → paging_unmap_page virt s ≡ invlpg virt (set_entry pt (indexer_assign virt).pml1 0 s)
unfolding paging_unmap_page
paging_unmap_page-at s virt pt leads = rw (paging_unmap_page, leads) refl

pub invlpg-Alike : (t i page : ℕ) (s s' : Paging) → Alike t i s s' → Alike t i s (invlpg page s')
unfolding invlpg
invlpg-Alike t i page s s' alike = record {
  pml4 = alike.pml4;
  next = alike.next;
  address = alike.address;
}

cleared :
    (t i page : ℕ) (s : Paging) → get_address ((invlpg page (set_entry t i 0 s)).tables t i) ≡ 0
unfolding invlpg set_entry get_address
cleared t i page s = ap address_bits (put_entry-same s.tables t i 0)

logged :
    (t i page : ℕ) (s : Paging)
    → (invlpg page (set_entry t i 0 s)).invalidated ≡ page ∷ s.invalidated
unfolding invlpg set_entry
logged t i page s = refl

-- Where the three tables on the way of `virt` are present and its entry in the last one is none of
-- those above, after `paging_unmap_page` the walk of `virt` gives 0, that of every address whose
-- way does not use the entry gives what it gave before, and `virt` was handed to `invlpg`.
pub paging_unmap_page_lem :
    (s : Paging) (virt pt : ℕ)
    → last_table s (indexer_assign virt) ≡ some pt
    → uses_above s (indexer_assign virt) pt (indexer_assign virt).pml1 ≡ false
    → Unmapped virt pt s (paging_unmap_page virt s)
paging_unmap_page_lem s virt pt leads unused =
    let index = indexer_assign virt in
    let alike = invlpg-Alike pt index.pml1 virt s _ (set_entry-Alike pt index.pml1 0 s) in
    let still = last_table-Alike pt index.pml1 s _ alike index unused ∙ leads in
    rw (paging_unmap_page-at s virt pt leads) (
      paging_walk_page-at _ virt pt still ∙ cleared pt index.pml1 virt s,
      λ v unused_v. paging_walk_page-Alike pt index.pml1 s _ v alike unused_v,
      logged pt index.pml1 virt s,
    )
