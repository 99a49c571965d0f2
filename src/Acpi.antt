-- ===== src/Acpi.antt =====
-- kernel/src/iodev/acpi/tables/tables.c: the search for a table of the firmware, in the memory that
-- the firmware left, through the functions `strlen` and `strncmp` of the kernel.
pub mod Tables
pub mod Sample
mod Tests
use skylight.Base.{
  ℕ, zero, suc, ◌+◌, ◌*◌, ◌/◌, ◌%◌, ◌^◌, Bool, ◌&&◌, Option, none, some, ◌==◌, leb, if◌then◌else◌,
  add64, sub64, mul64, not,
}
use skylight.Strings.{Memory, strlen, strncmp}
use skylight.LittleEndian.{read_bytes}

abbrev pub virtual_offset : ℕ
virtual_offset = 0xffff800000000000

-- The sizes of `acpi_sdt_header_t` and `acpi_rdsp2_t`.
abbrev pub sdt_header_size : ℕ
sdt_header_size = 36

abbrev pub rsdp_size : ℕ
rsdp_size = 36

-- The fields `length` of a table and `rsdt` and `xsdt` of the root pointer.
abbrev pub table_length : Memory → ℕ → ℕ
table_length m header = read_bytes 4 m (header + 4)

abbrev pub rsdt_field : Memory → ℕ → ℕ
rsdt_field m rsdp = read_bytes 4 m (rsdp + 16)

abbrev pub xsdt_field : Memory → ℕ → ℕ
xsdt_field m rsdp = read_bytes 8 m (rsdp + 24)

-- Both functions take 8 bytes for the size of an entry.
abbrev pub entries_of : Memory → (header : ℕ) → ℕ
entries_of m header = sub64 (table_length m header) sdt_header_size / 8

unfoldable pub rsdt_get : Memory → (rsdp index : ℕ) → ℕ
rsdt_get m rsdp index =
    let header = add64 (rsdt_field m rsdp) virtual_offset in
    if leb (entries_of m header) index
    then 0
    else add64
        (read_bytes 4 m
          (add64 (add64 (rsdt_field m rsdp) sdt_header_size) virtual_offset + 4 * index))
        virtual_offset

unfoldable pub xsdt_get : Memory → (rsdp index : ℕ) → ℕ
xsdt_get m rsdp index =
    let header = add64 (xsdt_field m rsdp) virtual_offset in
    if leb (entries_of m header) index
    then 0
    else add64
        (read_bytes 8 m
          (add64 (add64 (xsdt_field m rsdp) sdt_header_size) virtual_offset + 8 * index))
        virtual_offset

-- `acpi_rsdp - PAGING_VIRTUAL_OFFSET == NULL`, where the pointer counts in root pointers.
abbrev pub rsdp_missing : ℕ → Bool
rsdp_missing rsdp = sub64 rsdp (mul64 rsdp_size virtual_offset) == 0

unfoldable pub header_at : Memory → (rsdp i : ℕ) → ℕ
unfolding rsdt_get xsdt_get
header_at m rsdp i = if not (xsdt_field m rsdp == 0) then xsdt_get m rsdp i else rsdt_get m rsdp i

unfoldable pub search : (rounds : ℕ) → Memory → (rsdp signature index i occurence : ℕ) → Option ℕ
search zero m rsdp signature index i occurence = none
search (suc rounds) m rsdp signature index i occurence =
    let header = header_at m rsdp i in
    let same = strncmp m header signature 4 == 0 in
    let rest =
      search rounds m rsdp signature index ((i + 1) % 2 ^ 16)
        (if same then (occurence + 1) % 2 ^ 16 else occurence) in
    if header == 0 then some 0 else if same && occurence == index then some header else rest

-- NULL is 0, and `none` a loop that was given too few rounds.
unfoldable pub acpi_get_table : (rounds : ℕ) → Memory → (rsdp signature index : ℕ) → Option ℕ
unfolding search
acpi_get_table rounds m rsdp signature index =
    if rsdp_missing rsdp then some 0 else elim (strlen rounds m signature) [
      | none ↦ none
      | some n ↦ if n == 4 then search rounds m rsdp signature index 0 0 else some 0
    ]
