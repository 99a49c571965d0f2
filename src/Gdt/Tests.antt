-- ===== src/Gdt/Tests.antt =====
-- Examples for the table of segment descriptors.
use skylight.Base.{◌+◌, ◌≡◌, refl}
use skylight.Strings.{Memory}
use skylight.LittleEndian.{read_bytes, write_bytes}
use skylight.Gdt.{Gdt, gdt_assemble}

abbrev zeros : Memory
zeros q = 0

abbrev six : Gdt
six = record { table = zeros; gindex = 6 }

-- After the start the code of the kernel has the flags 0x9A at selector 8.
kernel_code_flags :
    read_bytes 1 (gdt_assemble (record { table = zeros; gindex = 0 })).table (8 + 5) ≡ 0x9A
unfolding gdt_assemble read_bytes write_bytes
kernel_code_flags = refl
