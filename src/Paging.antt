-- ===== src/Paging.antt =====
-- Page tables, kernel/src/mem/paging/paging.c and paging.h. A table is at a physical address, which
-- the kernel maps to itself, so a table is what `tables` holds at its address, index by index. A
-- mask of consecutive bits is written with `/`, `*` and `%`.
pub mod Bits
pub mod Fields
pub mod Walk
pub mod Way
pub mod Map
pub mod Unmap
pub mod Remap
pub mod Calls
mod Tests
use Prim.Native.Nat.{bit_or}
use skylight.Base.{
  ℕ, zero, suc, ◌+◌, ◌*◌, ◌/◌, ◌%◌, ◌^◌, Bool, true, false, not, ◌&&◌, List, ◌∷◌, Option, none,
  some, ◌==◌, if◌then◌else◌, Cmd, pure, fault, ◌>>=◌, ◌>>◌,
}
use skylight.Pmm.{Pmm}
use skylight.Pmm.Pages.{pmm_alloc_page}

-- `paging_indexer_t`
pub record Indexer : Type 0 where
  pub pml4 : ℕ
  pub pml3 : ℕ
  pub pml2 : ℕ
  pub pml1 : ℕ

-- `paging_indexer_assign`
unfoldable pub indexer_assign : ℕ → Indexer
indexer_assign address =
    let uaddress = address / 2 ^ 12 in
    record {
      pml1 = uaddress % 0x200;
      pml2 = uaddress / 2 ^ 9 % 0x200;
      pml3 = uaddress / 2 ^ 9 / 2 ^ 9 % 0x200;
      pml4 = uaddress / 2 ^ 9 / 2 ^ 9 / 2 ^ 9 % 0x200;
    }

-- `address & 0xffffffffff000`
abbrev pub address_bits : ℕ → ℕ
address_bits d = d / 0x1000 % 2 ^ 40 * 0x1000

-- `paging_desc_set_address`, `paging_desc_get_address`
unfoldable pub set_address : ℕ → ℕ → ℕ
set_address descriptor address = bit_or descriptor (address_bits address)

unfoldable pub get_address : ℕ → ℕ
get_address descriptor = address_bits descriptor

-- `paging_desc_get_flag` and `paging_desc_set_flag` of `PAGING_FLAG_PRESENT`, the lowest bit
unfoldable pub is_present : ℕ → Bool
is_present descriptor = not (descriptor % 2 == 0)

unfoldable pub set_present : ℕ → ℕ
set_present descriptor = descriptor / 2 * 2 + 1

-- `paging_desc_set_flags`
unfoldable pub set_flags : ℕ → ℕ → ℕ
set_flags descriptor flags = bit_or (descriptor / 0x1000 * 0x1000) flags

-- `PAGING_FLAGS_KERNEL_PAGE`
abbrev pub kernel_page : ℕ
kernel_page = 3

-- The static `pml4`, the tables, the page allocator, and the addresses given to `invlpg`, latest
-- first.
pub record Paging : Type 0 where
  pub pml4 : ℕ
  pub tables : ℕ → ℕ → ℕ
  pub memory : Pmm
  pub invalidated : List ℕ

abbrev pub PagingCmd : Type 0 → Type 0
PagingCmd = Cmd Paging

abbrev pub put_entry : (ℕ → ℕ → ℕ) → (table index entry : ℕ) → ℕ → ℕ → ℕ
put_entry tables table index entry t i = if (t == table) && (i == index) then entry else tables t i

unfoldable pub set_entry : (table index entry : ℕ) → Paging → Paging
set_entry table index entry s = record s { tables = put_entry s.tables table index entry }

-- `memset` of a whole table with 0.
unfoldable pub clear_table : (table : ℕ) → Paging → Paging
clear_table table s = record s { tables = λ t i. if t == table then 0 else s.tables t i }

unfoldable pub invlpg : (page : ℕ) → Paging → Paging
invlpg page s = record s { invalidated = page ∷ s.invalidated }

-- A new table from the page allocator for the entry, mapped to itself by `again`. No memory left
-- is a `memset` at `NULL`.
unfoldable pub new_table :
    (again : ℕ → PagingCmd (Unit {0})) → (table index flags : ℕ) → PagingCmd ℕ
new_table again table index flags s = elim (pmm_alloc_page s.memory) [
  | none ↦ none
  | some (page, memory) ↦
      if page == 0
      then none
      else (let pde = bit_or (set_present (set_address (s.tables table index) page)) flags in
          (again page >> pure page)
            (set_entry table index pde (clear_table page (record s { memory = memory }))))
]

-- One level of `paging_map_page`: the table that the entry leads to.
unfoldable pub descend :
    (again : ℕ → PagingCmd (Unit {0})) → (index flags : ℕ) → (table : ℕ) → PagingCmd ℕ
descend again index flags table s =
    let pde = s.tables table index in
    if not (is_present pde)
    then new_table again table index flags s
    else some (get_address pde, set_entry table index (bit_or pde flags) s)

-- The last level of `paging_map_page`.
unfoldable pub map_entry : (index phys flags : ℕ) → (table : ℕ) → PagingCmd (Unit {0})
map_entry index phys flags table s =
    let pde = set_present (set_address (s.tables table index) phys) in
    some (tt, set_entry table index (set_flags pde flags) s)

abbrev pub get_pml4 : PagingCmd ℕ
get_pml4 s = some (s.pml4, s)

-- `paging_map_page`; `rounds` bounds how deep it calls itself for the tables that it makes.
unfoldable pub paging_map_page : (rounds virt phys flags : ℕ) → PagingCmd ℕ
paging_map_page zero virt phys flags = fault
paging_map_page (suc rounds) virt phys flags = do
  let bits = flags % 0x1000
  let index = indexer_assign virt
  let again = λ (page : ℕ). paging_map_page rounds page page kernel_page >> pure tt
  top ← get_pml4
  pdp ← descend again index.pml4 bits top
  pd ← descend again index.pml3 bits pdp
  pt ← descend again index.pml2 bits pd
  map_entry index.pml1 phys bits pt
  pure virt

-- The table that an entry leads to.
unfoldable pub next_table : ℕ → Option ℕ
next_table pde = if is_present pde then some (get_address pde) else none

abbrev pub through : Option ℕ → (ℕ → Option ℕ) → Option ℕ
through none next = none
through (some table) next = next table

-- The last table on the way of an address: the checks that `paging_walk_page`,
-- `paging_unmap_page` and `paging_remap_page` begin with.
unfoldable pub last_table : Paging → Indexer → Option ℕ
last_table s index =
    through (next_table (s.tables s.pml4 index.pml4)) λ pdp.
      through (next_table (s.tables pdp index.pml3)) λ pd. next_table (s.tables pd index.pml2)

unfoldable pub paging_walk_page : ℕ → Paging → ℕ
paging_walk_page virt s =
    let index = indexer_assign virt in
    elim (last_table s index) [ none ↦ 0 | some pt ↦ get_address (s.tables pt index.pml1) ]

unfoldable pub paging_unmap_page : ℕ → Paging → Paging
paging_unmap_page virt s =
    let index = indexer_assign virt in
    elim (last_table s index) [ none ↦ s | some pt ↦ invlpg virt (set_entry pt index.pml1 0 s) ]

-- The flags are added to an entry, which is then read.
unfoldable pub add_flags : (table index flags : ℕ) → Paging → Paging
add_flags table index flags s = set_entry table index (bit_or (s.tables table index) flags) s

unfoldable pub paging_edit_page : (virt flags : ℕ) → Paging → Paging
paging_edit_page virt flags s =
    let index = indexer_assign virt in
    let pdp = get_address (s.tables s.pml4 index.pml4) in
    let s1 = add_flags pdp index.pml3 flags (add_flags s.pml4 index.pml4 flags s) in
    let pd = get_address (s1.tables pdp index.pml3) in
    let s2 = add_flags pd index.pml2 flags s1 in
    let pt = get_address (s2.tables pd index.pml2) in
    invlpg virt (set_entry pt index.pml1 (set_flags (s2.tables pt index.pml1) flags) s2)

-- `paging_remap_page`. C does not say which argument of its call of `paging_map_page` comes first:
-- the address of `old_pde`, or `old_pde &= 0x0fff`, behind which no address is left.
unfoldable pub paging_remap_page : (rounds : ℕ) → (mask_first : Bool) → (old new : ℕ) → PagingCmd ℕ
paging_remap_page rounds mask_first old new s =
    let index = indexer_assign old in
    elim (last_table s index) [
      | none ↦ some (0, s)
      | some pt ↦
          let old_pde = s.tables pt index.pml1 in
          let phys = get_address (if mask_first then old_pde % 0x1000 else old_pde) in
          (paging_map_page rounds new phys (old_pde % 0x1000) >> (λ t. some (new, invlpg old t)))
            (paging_unmap_page old s)
    ]

unfoldable pub paging_load_pml4 : ℕ → Paging → Paging
paging_load_pml4 table s = record s { pml4 = table }
