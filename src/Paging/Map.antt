-- ===== src/Paging/Map.antt =====
-- `paging_map_page` where the tables on the way are present.
use skylight.Base.{ℕ, suc, ◌%◌, ◌≡◌, refl, arith, ◌∙◌, ap, false, Option, some, pure, ◌>>◌}
use skylight.Paging.{
  indexer_assign, Paging, address_bits, get_address, set_address, set_present, set_flags,
  last_table, set_entry, add_flags, map_entry, kernel_page, paging_map_page, paging_walk_page,
}
use skylight.Paging.Fields.{get_address-fresh}
use skylight.Paging.Way.{
  Kept, Kept-trans, add_flags-Kept, descend-present, Way, last_table-Way, Way-unused, on_way,
  on_way-Kept,
}
use skylight.Paging.Walk.{
  uses, Alike, last_table-Alike, paging_walk_page-Alike, paging_walk_page-at, put_entry-same,
  set_entry-Alike,
}

paging_map_page-runs :
    (rounds virt phys flags pt : ℕ) (s : Paging) (way : Way s (indexer_assign virt) pt)
    → let f = flags % 0x1000 in
      let index = indexer_assign virt in
      let t = on_way s index pt f way in
      paging_map_page (suc rounds) virt phys flags s
      ≡ some (
        virt,
        set_entry pt index.pml1
            (set_flags (set_present (set_address (t.tables pt index.pml1) phys)) f)
            t,
      )
unfolding paging_map_page on_way map_entry
paging_map_page-runs rounds virt phys flags pt s way =
    let f = flags % 0x1000 in
    let index = indexer_assign virt in
    let s1 = add_flags s.pml4 index.pml4 f s in
    let s2 = add_flags way.pdp index.pml3 f s1 in
    let k1 = add_flags-Kept s.pml4 index.pml4 f way.pdp s (omega arith) way.to_pdp in
    let k2 =
      Kept-trans s s1 s2 k1
        (add_flags-Kept way.pdp index.pml3 f way.pd s1 (omega arith) (k1.next _ _ ∙ way.to_pd)) in
    let again = λ (page : ℕ). paging_map_page rounds page page kernel_page >> pure tt in
    rw
      (
        descend-present again index.pml4 f s.pml4 way.pdp s way.to_pdp,
        descend-present again index.pml3 f way.pdp way.pd s1 (k1.next _ _ ∙ way.to_pd),
        descend-present again index.pml2 f way.pd pt s2 (k2.next _ _ ∙ way.to_pt),
      )
      refl

-- The page at `virt` leads to `phys`; addresses that do not use its entry lead where they led.
abbrev pub Mapped : (virt phys pt : ℕ) → Paging → Option (ℕ × Paging) → Type 0
Mapped virt phys pt s o =
    (s' : Paging) × (o ≡ some (virt, s'))
    × (paging_walk_page virt s' ≡ address_bits phys)
    × ((v : ℕ)
        → uses s (indexer_assign v) pt (indexer_assign virt).pml1 ≡ false
        → paging_walk_page v s' ≡ paging_walk_page v s)
    × (s'.memory ≡ s.memory)
    × (s'.pml4 ≡ s.pml4)

Kept-Alike :
    (t i : ℕ) (s s' : Paging) (entry : ℕ) → Kept s s' → Alike t i s (set_entry t i entry s')
unfolding set_entry
Kept-Alike t i s s' entry kept =
    let alike = set_entry-Alike t i entry s' in
    record {
      pml4 = kept.pml4;
      next = λ u j other. alike.next u j other ∙ kept.next u j;
      address = λ u j other. alike.address u j other ∙ kept.address u j;
    }

-- Where the three tables on the way of `virt` are present and its entry in the last one is 0,
-- `paging_map_page` returns `virt` without allocating: then `paging_walk_page` of it gives the
-- page frame of `phys`, and of every address whose way does not use that entry what it gave
-- before.
pub paging_map_page_lem :
    (rounds virt phys flags pt : ℕ) (s : Paging)
    → last_table s (indexer_assign virt) ≡ some pt
    → s.tables pt (indexer_assign virt).pml1 ≡ 0
    → Mapped virt phys pt s (paging_map_page (suc rounds) virt phys flags s)
unfolding set_entry
paging_map_page_lem rounds virt phys flags pt s leads empty =
    let f = flags % 0x1000 in
    let index = indexer_assign virt in
    let way = last_table-Way s index pt leads in
    let t = on_way s index pt f way in
    let kept = on_way-Kept s index pt f way (omega arith) in
    let entry = set_flags (set_present (set_address (t.tables pt index.pml1) phys)) f in
    let done = set_entry pt index.pml1 entry t in
    let alike = Kept-Alike pt index.pml1 s t entry kept in
    let still =
      last_table-Alike pt index.pml1 s done alike index (Way-unused s index pt index.pml1 way empty)
      ∙ leads in
    let written =
      ap get_address (put_entry-same t.tables pt index.pml1 entry)
      ∙ ap (λ d. get_address (set_flags (set_present (set_address d phys)) f))
          (kept.empty pt index.pml1 empty)
      ∙ get_address-fresh phys f (omega arith) in
    (
      done,
      paging_map_page-runs rounds virt phys flags pt s way,
      paging_walk_page-at done virt pt still ∙ written,
      λ v unused. paging_walk_page-Alike pt index.pml1 s done v alike unused,
      kept.memory,
      kept.pml4,
    )
