-- ===== src/Boot.antt =====
-- The memory map, limine_reinterpret of kernel/src/boot/limine/limine.c: the map of the boot loader
-- is changed to keep room for the kernel's own map, copied, and cut off below the first mebibyte.
-- `none` is a read behind the end of the boot loader's map.
pub mod Clip
mod Tests
use skylight.Base.{
  ℕ, ◌+◌, ◌*◌, ◌/◌, Bool, true, false, ◌&&◌, List, [], ◌∷◌, Option, none, some, ◌==◌, ltb, leb,
  if◌then◌else◌, length, add64, sub64, mul64, map,
}
use skylight.Pmm.{paging_page_size}
use skylight.Pmm.Start.{Entry, memory_map_free, memory_map_busy, pages_of}

-- `LIMINE_MEMMAP_USABLE` and the other types of the boot loader
pub data MemmapType : Type 0 where
  usable : MemmapType
  reserved : MemmapType
  acpi_reclaimable : MemmapType
  acpi_nvs : MemmapType
  bad_memory : MemmapType
  bootloader_reclaimable : MemmapType
  kernel_and_modules : MemmapType
  framebuffer : MemmapType
  other : ℕ → MemmapType

-- `struct limine_memmap_entry`
pub record LimineEntry : Type 0 where
  pub base : ℕ
  pub length : ℕ
  pub kind : MemmapType

-- `MEMORY_MAP_MMIO` and `MEMORY_MAP_NOUSE`
abbrev pub memory_map_mmio : ℕ
memory_map_mmio = 2

abbrev pub memory_map_nouse : ℕ
memory_map_nouse = 3

unfoldable pub limine_mmap_type_convert : MemmapType → ℕ
limine_mmap_type_convert usable = memory_map_free
limine_mmap_type_convert reserved = memory_map_busy
limine_mmap_type_convert kernel_and_modules = memory_map_busy
limine_mmap_type_convert framebuffer = memory_map_mmio
limine_mmap_type_convert acpi_nvs = memory_map_nouse
limine_mmap_type_convert bad_memory = memory_map_nouse
limine_mmap_type_convert bootloader_reclaimable = memory_map_busy
limine_mmap_type_convert acpi_reclaimable = memory_map_busy
limine_mmap_type_convert (other n) = memory_map_nouse

abbrev pub is_usable : MemmapType → Bool
is_usable usable = true
is_usable t = false

-- `MEMORY_AMD_IOMMU_BLOCK_START` and `MEMORY_AMD_IOMMU_BLOCK_END`
abbrev pub iommu_start : ℕ
iommu_start = 0xFD00000000

abbrev pub iommu_end : ℕ
iommu_end = 0xFFFFFFFFFF

-- The entry of the IOMMU is taken for bad memory.
unfoldable pub ignore_iommu : LimineEntry → LimineEntry
ignore_iommu e =
    if leb iommu_start e.base && leb e.base iommu_end then record e { kind = bad_memory } else e

-- The first used entry before a usable one with more than `map_pages` pages gives up its end.
abbrev pub has_room : (map_pages : ℕ) → (used_entry free_entry : LimineEntry) → Bool
has_room map_pages used_entry free_entry =
    is_usable free_entry.kind
    && (limine_mmap_type_convert used_entry.kind == memory_map_busy)
    && ltb map_pages (free_entry.length / paging_page_size)

abbrev pub grown : (map_pages : ℕ) → LimineEntry → LimineEntry
grown map_pages e = record e { length = add64 e.length (mul64 map_pages paging_page_size) }

abbrev pub shrunk : (map_pages : ℕ) → LimineEntry → LimineEntry
shrunk map_pages e = record e {
  base = add64 e.base (mul64 map_pages paging_page_size);
  length = sub64 e.length (mul64 map_pages paging_page_size);
}

abbrev pub under : LimineEntry → Option (List LimineEntry) → Option (List LimineEntry)
under e none = none
under e (some entries) = some (e ∷ entries)

unfoldable pub reserve_room : (map_pages : ℕ) → List LimineEntry → Option (List LimineEntry)
reserve_room map_pages [] = none
reserve_room map_pages (u ∷ []) = none
reserve_room map_pages (u ∷ f ∷ entries) =
    let next = reserve_room map_pages (f ∷ entries) in
    if has_room map_pages u f
    then some (grown map_pages u ∷ shrunk map_pages f ∷ entries)
    else under u next

abbrev pub convert : LimineEntry → Entry
convert e = record { base = e.base; length = e.length; signal = limine_mmap_type_convert e.kind }

-- The first mebibyte
abbrev pub mebibyte : ℕ
mebibyte = 0x100000

-- The entries below the first mebibyte are emptied, and the one that reaches behind it is cut.
unfoldable pub clip_low : List Entry → List Entry
clip_low [] = []
clip_low (e ∷ entries) =
    let rest = clip_low entries in
    if ltb e.base mebibyte
    then (if ltb (add64 e.base e.length) mebibyte
        then record e { length = 0; signal = memory_map_nouse } ∷ rest
        else record e { base = mebibyte; length = sub64 e.length (sub64 mebibyte e.base) } ∷ rest)
    else e ∷ entries

-- The first entry is overwritten.
unfoldable pub clip_map : List Entry → List Entry
clip_map [] = []
clip_map (e ∷ entries) =
    record { base = 0; length = mebibyte; signal = memory_map_nouse } ∷ clip_low entries

-- `sizeof(struct limine_memmap_entry)`
abbrev pub limine_entry_size : ℕ
limine_entry_size = 24

abbrev pub own_map : Option (List LimineEntry) → Option (List Entry)
own_map none = none
own_map (some entries) = some (clip_map (map convert entries))

-- The memory map that `limine_reinterpret` leaves.
unfoldable pub memory_map_of : List LimineEntry → Option (List Entry)
memory_map_of entries =
    let map_pages = pages_of (mul64 (length entries) limine_entry_size) + 2 in
    own_map (reserve_room map_pages (map ignore_iommu entries))
