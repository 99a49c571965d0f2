-- ===== src/Gdt.antt =====
-- kernel/src/cpu/gdt/gdt.c: the table of segment descriptors, as its bytes. The load of the table
-- into the processor is not part of it.
pub mod Descriptors
mod Tests
use skylight.Base.{
  ℕ, suc, ◌+◌, ◌-◌, ◌*◌, ◌/◌, ◌%◌, ◌^◌, Bool, ltb, leb, ◌==◌, Option, none, some, if◌then◌else◌,
}
use skylight.Strings.{Memory}
use skylight.LittleEndian.{write_bytes}

-- The table and `gindex`.
pub record Gdt : Type 0 where
  pub table : Memory
  pub gindex : ℕ

abbrev pub gdt_max_descriptors : ℕ
gdt_max_descriptors = 0x2000

abbrev pub descriptor_size : ℕ
descriptor_size = 8

-- Present, readable and writable, for code or data; executable; for user mode.
abbrev pub basic_descriptor : ℕ
basic_descriptor = 0x80 + 0x02 + 0x10

abbrev pub executable : ℕ
executable = 0x08

abbrev pub user_level : ℕ
user_level = 0x60

abbrev pub basic_granularity : ℕ
basic_granularity = 0x20 + 0x80

-- The fields of the descriptor at `p`, in the order in which they are written.
unfoldable pub write_descriptor : (p base limit access granularity : ℕ) → Memory → Memory
write_descriptor p base limit access granularity m =
    let m1 = write_bytes 2 m (p + 2) (base % 2 ^ 16) in
    let m2 = write_bytes 1 m1 (p + 4) (base / 2 ^ 16 % 2 ^ 8) in
    let m3 = write_bytes 1 m2 (p + 7) (base / 2 ^ 24 % 2 ^ 8) in
    let m4 = write_bytes 2 m3 p limit in
    let m5 = write_bytes 1 m4 (p + 5) access in write_bytes 1 m5 (p + 6) granularity

unfoldable pub gdt_add_descriptor : (base limit access granularity : ℕ) → Gdt → Gdt
unfolding write_descriptor
gdt_add_descriptor base limit access granularity s =
    if leb gdt_max_descriptors s.gindex then s else record {
      table = write_descriptor (s.gindex * descriptor_size) base limit access granularity s.table;
      gindex = (s.gindex + 1) % 2 ^ 16;
    }

abbrev pub tss_size : ℕ
tss_size = 0x70

abbrev pub tss_type : ℕ
tss_type = 0x01 + 0x08 + 0x80

unfoldable pub write_tss : (p tss : ℕ) → Memory → Memory
write_tss p tss m =
    let m1 = write_bytes 2 m p (tss_size % 2 ^ 16) in
    let m2 = write_bytes 2 m1 (p + 2) (tss % 2 ^ 16) in
    let m3 = write_bytes 1 m2 (p + 4) (tss / 2 ^ 16 % 2 ^ 8) in
    let m4 = write_bytes 1 m3 (p + 5) tss_type in
    let m5 = write_bytes 1 m4 (p + 6) (tss_size / 2 ^ 16 % 2 ^ 4) in
    let m6 = write_bytes 1 m5 (p + 7) (tss / 2 ^ 24 % 2 ^ 8) in
    let m7 = write_bytes 4 m6 (p + 8) (tss / 2 ^ 32) in write_bytes 4 m7 (p + 12) 0

-- The selector, which is 0 for a table that is full, and the table; `none` is a descriptor of which
-- the second half would stand behind the table.
unfoldable pub gdt_install_tss : (tss : ℕ) → Gdt → Option (ℕ × Gdt)
unfolding write_tss
gdt_install_tss tss s =
    let gindex = (s.gindex + 2) % 2 ^ 16 in
    if leb gdt_max_descriptors s.gindex
    then some (0, s)
    else if s.gindex + 1 == gdt_max_descriptors
    then none
    else some (
      (gindex + 2 ^ 16 - 2) * descriptor_size % 2 ^ 16,
      record { table = write_tss (s.gindex * descriptor_size) tss s.table; gindex = gindex },
    )

unfoldable pub gdt_assemble : Gdt → Gdt
unfolding gdt_add_descriptor
gdt_assemble s =
    let s1 = gdt_add_descriptor 0 0 0 0 s in
    let s2 = gdt_add_descriptor 0 0xFFFF (basic_descriptor + executable) basic_granularity s1 in
    let s3 = gdt_add_descriptor 0 0xFFFF basic_descriptor basic_granularity s2 in
    let s4 = gdt_add_descriptor 0 0xFFFF (basic_descriptor + user_level) basic_granularity s3 in
    let s5 =
      gdt_add_descriptor 0 0xFFFF (basic_descriptor + user_level + executable) basic_granularity
        s4 in
    gdt_add_descriptor 0 0 0 0 s5
