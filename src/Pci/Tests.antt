-- ===== src/Pci/Tests.antt =====
-- Examples for the PCI functions.
use skylight.Base.{
  ℕ, ◌*◌, ◌/◌, ◌^◌, ◌==◌, if◌then◌else◌, ◌<◌, ◌≡◌, ◌⊎◌, ◌↔◌, refl, ap, inl, inr, true, false, [],
  ◌∷◌, some, arith,
}
use skylight.Strings.{Memory}
use skylight.LittleEndian.{read_bytes, write_bytes}
use skylight.Acpi.Sample.{memory, found}
use skylight.Pci.{
  PciFunction, Pci, FunctionPlace, Device, table_entries, for_from, scan_segment, scan_bus,
  scan_device, scan_function, pci_conf_load_cache, conf_read, conf_write,
}
use skylight.Pci.Cache.{Elem, Within, SegmentAt, pci_conf_load_cache_lem}
use skylight.Pci.Space.{IsAt, IsOnly, conf_read-conf_write}

abbrev empty_memory : Memory
empty_memory q = 0

abbrev disk : PciFunction
disk = record { base = 8192; segment = 0; bus = 0; device = 31; function = 2 }

abbrev bridge : PciFunction
bridge = record { base = 4096; segment = 0; bus = 0; device = 31; function = 0 }

abbrev state : Pci
state = record { memory = empty_memory; cache = bridge ∷ disk ∷ []; cached = true; mapped = [] }

abbrev disk_place : FunctionPlace
disk_place = record { segment = 0; bus = 0; device = 31; function = 2 }

-- One register at 8196, of which the lowest bit is always 0.
abbrev even_register : Device ℕ
even_register = record {
  read = λ bytes address d. (if address == 8196 then d else 0, d);
  write = λ bytes address value d. if address == 8196 then value / 2 * 2 else d;
}

bridge-apart : (g : PciFunction) → Elem g (bridge ∷ []) → ¬ IsAt g disk_place
bridge-apart g h at = elim h [
  | inl e ↦ omega (arith, at.3, ap (λ k. k.function) e)
  | inr e ↦ absurd e
]

disk-IsOnly : IsOnly disk_place disk (bridge ∷ disk ∷ [])
disk-IsOnly = (bridge ∷ [], [], refl, (refl, refl, refl, refl), bridge-apart, λ g h at. absurd h)

conf_read-conf_write_example :
    (conf_write even_register 9 100 10 2 disk_place 4 7 (state, 0) ≡ some (state, 6))
    × (conf_read even_register 9 100 10 2 disk_place 4 (state, 6) ≡ some (6, state, 6))
conf_read-conf_write_example =
    conf_read-conf_write even_register 9 100 10 2 disk_place 4 7 state 0 disk refl disk-IsOnly

-- A start with nothing cached, over a memory with the table at 3000.
abbrev fresh : Pci
fresh = record { memory = memory; cache = []; cached = false; mapped = [] }

one_entry : (table_entries memory 3000 < 2 ^ 16) × (table_entries memory 3000 < 9)
unfolding read_bytes write_bytes
one_entry = (omega arith, omega arith)

pci_conf_load_cache_lem_example :
    (t : Pci) × (pci_conf_load_cache 9 100 10 fresh ≡ some t)
    × (t.cached ≡ true)
    × (t.memory ≡ memory)
    × ((f : PciFunction)
        → Elem f t.cache
          ↔ (Elem f [] ⊎ Within memory f (table_entries memory 3000) 0 (SegmentAt memory f 3000)))
pci_conf_load_cache_lem_example =
    pci_conf_load_cache_lem 9 100 10 3000 fresh found (omega arith) one_entry.0 one_entry.1

-- What it finds.
one_function :
    (for_from (table_entries memory 3000) 0 (scan_segment 3000) fresh).cache
    ≡ record { base = 65536; segment = 0; bus = 0; device = 0; function = 0 } ∷ []
unfolding for_from scan_segment scan_bus scan_device scan_function read_bytes write_bytes
one_function = refl
