-- ===== src/Boot/Tests.antt =====
-- The memory map at a concrete one.
use skylight.Base.{ℕ, ◌≡◌, refl, List, [], ◌∷◌, some, if◌then◌else◌, ltb, arith}
use skylight.Pmm.{section_bad}
use skylight.Pmm.Start.{Entry}
use skylight.Pmm.Built.{map_kind}
use skylight.Boot.{
  LimineEntry, MemmapType, usable, reserved, mebibyte, clip_low, clip_map, limine_mmap_type_convert,
  ignore_iommu, reserve_room, memory_map_of,
}
use skylight.Boot.Clip.{map_kind-clip_map}

abbrev region : ℕ → ℕ → MemmapType → LimineEntry
region base length kind = record { base = base; length = length; kind = kind }

abbrev loader_map : List LimineEntry
loader_map =
    region 0 0x9f000 usable ∷ region 0xf0000 0x20000 reserved ∷ region 0x110000 0x100000 usable ∷ []

abbrev signalled : ℕ → ℕ → ℕ → Entry
signalled base length signal = record { base = base; length = length; signal = signal }

-- Three pages are kept behind the reserved entry, which begins at the first mebibyte now.
memory_map_of_run :
    memory_map_of loader_map
    ≡ some
        (signalled 0 0x100000 3 ∷ signalled 0x100000 0x13000 1 ∷ signalled 0x113000 0xfd000 0 ∷ [])
unfolding memory_map_of reserve_room ignore_iommu limine_mmap_type_convert clip_map clip_low
memory_map_of_run = refl

abbrev kernel_entries : List Entry
kernel_entries = signalled 0xf0000 0x20000 1 ∷ signalled 0x110000 0x100000 0 ∷ []

map_kind-clip_map_example :
    map_kind (clip_map (signalled 0 0x9f000 0 ∷ kernel_entries)) 0x108000
    ≡ (if ltb 0x108000 mebibyte then section_bad else map_kind kernel_entries 0x108000)
map_kind-clip_map_example =
    map_kind-clip_map (signalled 0 0x9f000 0) 0 kernel_entries 0x108000
      (omega arith, omega arith, (omega arith, omega arith, tt))
