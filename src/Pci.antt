-- ===== src/Pci.antt =====
-- PCI functions: the cache of kernel/src/iodev/pci/confrw.c and the reads and writes of their
-- configuration space, over the table `MCFG` that the firmware has; and the search of find.c.
pub mod Devices
pub mod Cache
pub mod Space
mod Tests
use skylight.Base.{
  ℕ, zero, suc, ◌+◌, ◌-◌, ◌*◌, ◌/◌, ◌%◌, ◌^◌, Bool, true, false, not, ◌||◌, List, [], ◌∷◌, ◌++◌,
  Option, none, some, ◌==◌, ltb, if◌then◌else◌, add64, sub64,
}
use skylight.Strings.{Memory}
use skylight.LittleEndian.{read_bytes}
use skylight.Acpi.{virtual_offset, table_length, acpi_get_table}

-- `pci_function_data_t`.
pub record PciFunction : Type 0 where
  pub base : ℕ
  pub segment : ℕ
  pub bus : ℕ
  pub device : ℕ
  pub function : ℕ

-- The cache is its array of functions; `mapped` are the pages mapped, virtual and physical.
pub record Pci : Type 0 where
  pub memory : Memory
  pub cache : List PciFunction
  pub cached : Bool
  pub mapped : List (ℕ × ℕ)

-- A loop of a counter from `i` on, with a `continue` where the body returns early.
unfoldable pub for_from : (rounds i : ℕ) → (ℕ → Pci → Pci) → Pci → Pci
for_from zero i body s = s
for_from (suc rounds) i body s = for_from rounds (suc i) body (body i s)

abbrev pub device_id : Memory → (header : ℕ) → ℕ
device_id m header = read_bytes 2 m (header + 2)

abbrev pub is_absent : Memory → (header : ℕ) → Bool
is_absent m header = device_id m header == 0 || device_id m header == 0xFFFF

-- `paging_map_page` of a physical page behind the offset of the kernel.
abbrev pub map_header : (address : ℕ) → Pci → Pci
map_header address s = record s {
  mapped = s.mapped ++ (add64 address virtual_offset, address) ∷ [];
}

unfoldable pub scan_function : (segment bus device device_address function : ℕ) → Pci → Pci
scan_function segment bus device device_address function s =
    let address = add64 device_address (function * 2 ^ 12) in
    let header = add64 address virtual_offset in
    let s' = map_header address s in
    if is_absent s'.memory header then s' else record s' {
      cache =
          s'.cache
          ++ record {
            base = header;
            segment = segment;
            bus = bus;
            device = device;
            function = function;
          }
            ∷ [];
    }

unfoldable pub scan_device : (segment bus bus_address device : ℕ) → Pci → Pci
unfolding scan_function for_from
scan_device segment bus bus_address device s =
    let address = add64 bus_address (device * 2 ^ 15) in
    let s' = map_header address s in
    if is_absent s'.memory (add64 address virtual_offset)
    then s'
    else for_from 8 0 (scan_function segment bus device address) s'

unfoldable pub scan_bus : (segment base bus : ℕ) → Pci → Pci
unfolding scan_device for_from
scan_bus segment base bus s =
    let address = add64 base (bus * 2 ^ 20) in
    let s' = map_header address s in
    if is_absent s'.memory (add64 address virtual_offset)
    then s'
    else for_from 32 0 (scan_device segment bus address) s'

-- The fields of the entry `index` of the table `MCFG`, whose header has 44 bytes.
abbrev pub mcfg_entry : (mcfg index : ℕ) → ℕ
mcfg_entry mcfg index = mcfg + 44 + 16 * index

abbrev pub entry_base : Memory → ℕ → ℕ
entry_base m entry = read_bytes 8 m entry

abbrev pub start_bus : Memory → ℕ → ℕ
start_bus m entry = read_bytes 1 m (entry + 10)

abbrev pub end_bus : Memory → ℕ → ℕ
end_bus m entry = read_bytes 1 m (entry + 11)

-- The loop over the buses of an entry stops before its last one.
unfoldable pub scan_segment : (mcfg segment : ℕ) → Pci → Pci
unfolding scan_bus for_from
scan_segment mcfg segment s =
    let entry = mcfg_entry mcfg segment in
    for_from (end_bus s.memory entry - start_bus s.memory entry) (start_bus s.memory entry)
      (scan_bus segment (entry_base s.memory entry)) s

abbrev pub table_entries : Memory → (mcfg : ℕ) → ℕ
table_entries m mcfg = sub64 (table_length m mcfg) 44 / 16

-- The loop over the entries, with a counter of 16 bits; `none` is too few rounds.
unfoldable pub scan_segments : (rounds seg : ℕ) → (entries mcfg : ℕ) → Pci → Option Pci
unfolding scan_segment
scan_segments zero seg entries mcfg s = none
scan_segments (suc rounds) seg entries mcfg s =
    let next = scan_segments rounds ((seg + 1) % 2 ^ 16) entries mcfg (scan_segment mcfg seg s) in
    if ltb seg entries then next else some s

abbrev pub with_cached : Option Pci → Option Pci
with_cached none = none
with_cached (some s) = some (record s { cached = true })

-- The root pointer and the name `MCFG` are at `rsdp` and `signature`. `none` is a loop that was
-- given too few rounds.
unfoldable pub pci_conf_load_cache : (rounds rsdp signature : ℕ) → Pci → Option Pci
unfolding scan_segments
pci_conf_load_cache rounds rsdp signature s =
    elim (acpi_get_table rounds s.memory rsdp signature 0) [
      | none ↦ none
      | some mcfg ↦
          if mcfg == 0
          then some s
          else with_cached (scan_segments rounds 0 (table_entries s.memory mcfg) mcfg s)
    ]

pub record FunctionPlace : Type 0 where
  pub segment : ℕ
  pub bus : ℕ
  pub device : ℕ
  pub function : ℕ

-- The four tests of a round, each with a `continue`.
unfoldable pub unless_at {ℓ} : {A : Type ℓ} → PciFunction → FunctionPlace → (next here : A) → A
unless_at f place next here =
    if not (f.segment == place.segment)
    then next
    else if not (f.bus == place.bus)
    then next
    else if not (f.device == place.device)
    then next
    else if not (f.function == place.function)
    then next
    else here

-- A volatile access of so many bytes goes to the device, whose state is of the type `D`; reading may
-- change it too.
pub record Device (D : Type 0) : Type 0 where
  pub read : (bytes address : ℕ) → D → ℕ × D
  pub write : (bytes address value : ℕ) → D → D

module _ {D : Type 0} (device : Device D) where
  unfoldable pub write_from :
      (bytes : ℕ) → List PciFunction → FunctionPlace → (offset value : ℕ) → D → D
  write_from bytes [] place offset value d = d
  write_from bytes (f ∷ fs) place offset value d =
      write_from bytes fs place offset value
        (unless_at f place d (device.write bytes (add64 f.base offset) value d))

  unfoldable pub read_from :
      (bytes : ℕ) → List PciFunction → FunctionPlace → (offset : ℕ) → D → ℕ × D
  read_from bytes [] place offset d = (0, d)
  read_from bytes (f ∷ fs) place offset d =
      let rest = read_from bytes fs place offset d in
      unless_at f place rest (device.read bytes (add64 f.base offset) d)

-- The cache is loaded before the first access.
unfoldable pub loaded : (rounds rsdp signature : ℕ) → Pci → Option Pci
unfolding pci_conf_load_cache
loaded rounds rsdp signature s =
    if not s.cached then pci_conf_load_cache rounds rsdp signature s else some s

module _ {D : Type 0} (device : Device D) (rounds rsdp signature : ℕ) where
  unfoldable pub conf_write :
      (bytes : ℕ) → FunctionPlace → (offset value : ℕ) → Pci × D → Option (Pci × D)
  unfolding loaded write_from unless_at
  conf_write bytes place offset value (s, d) = elim (loaded rounds rsdp signature s) [
    | none ↦ none
    | some t ↦ some (t, write_from device bytes t.cache place offset value d)
  ]

  unfoldable pub conf_read :
      (bytes : ℕ) → FunctionPlace → (offset : ℕ) → Pci × D → Option (ℕ × Pci × D)
  unfolding loaded read_from unless_at
  conf_read bytes place offset (s, d) = elim (loaded rounds rsdp signature s) [
    | none ↦ none
    | some t ↦
        let (value, d') = read_from device bytes t.cache place offset d in some (value, t, d')
  ]

  abbrev pub pci_conf_write_byte : FunctionPlace → (offset value : ℕ) → Pci × D → Option (Pci × D)
  pci_conf_write_byte = conf_write 1

  abbrev pub pci_conf_write_word : FunctionPlace → (offset value : ℕ) → Pci × D → Option (Pci × D)
  pci_conf_write_word = conf_write 2

  abbrev pub pci_conf_write_long : FunctionPlace → (offset value : ℕ) → Pci × D → Option (Pci × D)
  pci_conf_write_long = conf_write 4

  abbrev pub pci_conf_read_byte : FunctionPlace → (offset : ℕ) → Pci × D → Option (ℕ × Pci × D)
  pci_conf_read_byte = conf_read 1

  abbrev pub pci_conf_read_word : FunctionPlace → (offset : ℕ) → Pci × D → Option (ℕ × Pci × D)
  pci_conf_read_word = conf_read 2

  abbrev pub pci_conf_read_long : FunctionPlace → (offset : ℕ) → Pci × D → Option (ℕ × Pci × D)
  pci_conf_read_long = conf_read 4
