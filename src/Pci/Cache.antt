-- ===== src/Pci/Cache.antt =====
-- `pci_conf_load_cache` of kernel/src/iodev/pci/confrw.c: which functions it finds.
use skylight.Base.{
  ℕ, zero, suc, ◌+◌, ◌-◌, ◌*◌, ◌%◌, ◌^◌, ◌≤◌, ◌<◌, ◌≡◌, ◌≢◌, ◌∙◌, ◌⊎◌, ◌↔◌, refl, sym, ap, inl, inr,
  Bool, true, false, List, [], ◌∷◌, ◌++◌, some, none, ltb, if_true, if_false, if◌then◌else◌, arith,
  eq_or_ne, ==_of_ne, add64,
}
use mathlib.Core.Path.{subst}
use mathlib.Core.Bool.{false≢true}
use skylight.Strings.{Memory}
use skylight.Acpi.{virtual_offset, table_length, acpi_get_table}
use skylight.Pci.{
  PciFunction, Pci, for_from, is_absent, map_header, scan_function, scan_device, scan_bus,
  scan_segment, mcfg_entry, entry_base, start_bus, end_bus, table_entries, pci_conf_load_cache,
  scan_segments, with_cached,
}

abbrev pub Elem : PciFunction → List PciFunction → Type 0
Elem f [] = ⊥
Elem f (g ∷ gs) = (f ≡ g) ⊎ Elem f gs

Elem-snoc :
    (f g : PciFunction) (fs : List PciFunction) → Elem f (fs ++ g ∷ []) ↔ (Elem f fs ⊎ (f ≡ g))
Elem-snoc f g [] = (
  λ h. elim h [ inl e ↦ inr e | inr e ↦ absurd e ],
  λ h. elim h [ inl e ↦ absurd e | inr e ↦ inl e ],
)
Elem-snoc f g (x ∷ fs) =
    let rest = Elem-snoc f g fs in
    (
      λ h. elim h [
        | inl e ↦ inl (inl e)
        | inr e ↦ elim (rest.0 e) [ inl a ↦ inl (inr a) | inr b ↦ inr b ]
      ],
      λ h. elim h [
        | inl e ↦ elim e [ inl a ↦ inl a | inr b ↦ inr (rest.1 (inl b)) ]
        | inr e ↦ inr (rest.1 (inr e))
      ],
    )

module _ (m : Memory) (f : PciFunction) where
  -- From `s` to `t`, over the memory `m`, the function `f` comes into the cache exactly if `P`.
  pub record Adds (P : Type 0) (s t : Pci) : Type 0 where
    pub kept : t.memory ≡ m
    pub added : Elem f t.cache ↔ (Elem f s.cache ⊎ P)

  Adds-nothing : (P : Type 0) (s t : Pci) → t.memory ≡ m → t.cache ≡ s.cache → ¬ P → Adds P s t
  Adds-nothing P s t e same out = record {
    kept = e;
    added = (
      λ h. inl (subst (λ c. Elem f c) same h),
      λ h. elim h [ inl a ↦ subst (λ c. Elem f c) (sym same) a | inr p ↦ absurd (out p) ],
    );
  }

  Adds-iff : (P Q : Type 0) (s t : Pci) → (P ↔ Q) → Adds P s t → Adds Q s t
  Adds-iff P Q s t iff a = record {
    kept = a.kept;
    added = (
      λ h. elim (a.added.0 h) [ inl x ↦ inl x | inr p ↦ inr (iff.0 p) ],
      λ h. a.added.1 (elim h [ inl x ↦ inl x | inr q ↦ inr (iff.1 q) ]),
    );
  }

  -- One of the `rounds` values from `i` on satisfies `P`.
  abbrev pub Within : (rounds i : ℕ) → (ℕ → Type 0) → Type 0
  Within rounds i P = (k : ℕ) × (i ≤ k) × (k < i + rounds) × P k

  for_from-Adds :
      (P : ℕ → Type 0) (body : ℕ → Pci → Pci)
      → ((k : ℕ) (s : Pci) → s.memory ≡ m → Adds (P k) s (body k s))
      → (rounds i : ℕ) (s : Pci) → s.memory ≡ m
      → Adds (Within rounds i P) s (for_from rounds i body s)
  unfolding for_from
  for_from-Adds P body each zero i s e =
      Adds-nothing (Within 0 i P) s s e refl (λ w. omega (arith, w.1, w.2))
  for_from-Adds P body each (suc rounds) i s e =
      let first = each i s e in
      let others = for_from-Adds P body each rounds (suc i) (body i s) first.kept in
      record {
        kept = others.kept;
        added = (
          λ h. elim (others.added.0 h) [
            | inl x ↦ elim (first.added.0 x) [
              | inl y ↦ inl y
              | inr p ↦ inr (i, omega arith, omega arith, p)
            ]
            | inr w ↦ inr (w.0, omega (arith, w.1), omega (arith, w.2), w.3)
          ],
          λ h. elim h [
            | inl y ↦ others.added.1 (inl (first.added.1 (inl y)))
            | inr w ↦ elim (eq_or_ne w.0 i) [
              | inl same ↦ others.added.1 (inl (first.added.1 (inr (subst P same w.3))))
              | inr ne ↦ others.added.1 (inr (w.0, omega (arith, w.1, ne), omega (arith, w.2), w.3))
            ]
          ],
        );
      }

  if-Adds :
      (P : Type 0) (s t u : Pci) (b : Bool)
      → (b ≡ true → Adds P s t)
      → (b ≡ false → Adds P s u)
      → Adds P s (if b then t else u)
  if-Adds P s t u true x y = x refl
  if-Adds P s t u false x y = y refl

  -- The page at the physical address holds the header of a function.
  abbrev pub Present : (address : ℕ) → Type 0
  Present address = is_absent m (add64 address virtual_offset) ≡ false

  abbrev pub FunctionAt : (segment bus device device_address function : ℕ) → Type 0
  FunctionAt segment bus device device_address function =
      let address = add64 device_address (function * 2 ^ 12) in
      Present address
      × (f ≡ record {
        base = add64 address virtual_offset;
        segment = segment;
        bus = bus;
        device = device;
        function = function;
      })

  abbrev pub DeviceAt : (segment bus bus_address device : ℕ) → Type 0
  DeviceAt segment bus bus_address device =
      let address = add64 bus_address (device * 2 ^ 15) in
      Present address × Within 8 0 (FunctionAt segment bus device address)

  abbrev pub BusAt : (segment base bus : ℕ) → Type 0
  BusAt segment base bus =
      let address = add64 base (bus * 2 ^ 20) in
      Present address × Within 32 0 (DeviceAt segment bus address)

  abbrev pub SegmentAt : (mcfg segment : ℕ) → Type 0
  SegmentAt mcfg segment =
      let entry = mcfg_entry mcfg segment in
      Within (end_bus m entry - start_bus m entry) (start_bus m entry)
        (BusAt segment (entry_base m entry))

  Adds-from : (P : Type 0) (s s' t : Pci) → s'.cache ≡ s.cache → Adds P s' t → Adds P s t
  Adds-from P s s' t same a = record {
    kept = a.kept;
    added = (
      λ h. elim (a.added.0 h) [ inl x ↦ inl (subst (Elem f) same x) | inr p ↦ inr p ],
      λ h. a.added.1 (elim h [ inl x ↦ inl (subst (Elem f) (sym same) x) | inr p ↦ inr p ]),
    );
  }

  -- What is done with a header after its page was mapped is done only if it is present.
  entered :
      (address : ℕ) (P : Type 0) (s u : Pci)
      → s.memory ≡ m
      → Adds P (map_header address s) u
      → Adds (Present address × P) s (
          if is_absent (map_header address s).memory (add64 address virtual_offset)
          then map_header address s
          else u)
  entered address P s u e inner =
      let same : is_absent s.memory (add64 address virtual_offset)
          ≡ is_absent m (add64 address virtual_offset) =
        ap (λ n. is_absent n (add64 address virtual_offset)) e in
      if-Adds (Present address × P) s (map_header address s) u
        (is_absent s.memory (add64 address virtual_offset))
        (λ b.
          Adds-nothing (Present address × P) s (map_header address s) e refl
            (λ q. false≢true (sym q.0 ∙ sym same ∙ b)))
        (λ b.
          Adds-iff P (Present address × P) s u (λ p. (sym same ∙ b, p), λ q. q.1)
            (Adds-from P s (map_header address s) u refl inner))

  scan_function-Adds :
      (segment bus device device_address k : ℕ) (s : Pci)
      → s.memory ≡ m
      → Adds
          (FunctionAt segment bus device device_address k)
          s
          (scan_function segment bus device device_address k s)
  unfolding scan_function
  scan_function-Adds segment bus device device_address k s e =
      let address = add64 device_address (k * 2 ^ 12) in
      let g : PciFunction = record {
        base = add64 address virtual_offset;
        segment = segment;
        bus = bus;
        device = device;
        function = k;
      } in
      let s' = map_header address s in
      entered address (f ≡ g) s (record s' { cache = s'.cache ++ g ∷ [] }) e
        (record { kept = e; added = Elem-snoc f g s.cache })

  scan_device-Adds :
      (segment bus bus_address k : ℕ) (s : Pci)
      → s.memory ≡ m
      → Adds (DeviceAt segment bus bus_address k) s (scan_device segment bus bus_address k s)
  unfolding scan_device
  scan_device-Adds segment bus bus_address k s e =
      let address = add64 bus_address (k * 2 ^ 15) in
      let s' = map_header address s in
      entered address (Within 8 0 (FunctionAt segment bus k address)) s
        (for_from 8 0 (scan_function segment bus k address) s') e
        (for_from-Adds (FunctionAt segment bus k address) (scan_function segment bus k address)
          (scan_function-Adds segment bus k address) 8 0 s' e)

  scan_bus-Adds :
      (segment base k : ℕ) (s : Pci)
      → s.memory ≡ m
      → Adds (BusAt segment base k) s (scan_bus segment base k s)
  unfolding scan_bus
  scan_bus-Adds segment base k s e =
      let address = add64 base (k * 2 ^ 20) in
      let s' = map_header address s in
      entered address (Within 32 0 (DeviceAt segment k address)) s
        (for_from 32 0 (scan_device segment k address) s') e
        (for_from-Adds (DeviceAt segment k address) (scan_device segment k address)
          (scan_device-Adds segment k address) 32 0 s' e)

  scan_segment-Adds :
      (mcfg k : ℕ) (s : Pci) → s.memory ≡ m → Adds (SegmentAt mcfg k) s (scan_segment mcfg k s)
  unfolding scan_segment
  scan_segment-Adds mcfg k s e =
      let entry = mcfg_entry mcfg k in
      subst
        (λ n. Adds (SegmentAt mcfg k) s (
          for_from (end_bus n entry - start_bus n entry) (start_bus n entry)
            (scan_bus k (entry_base n entry)) s))
        (sym e)
        (for_from-Adds (BusAt k (entry_base m entry)) (scan_bus k (entry_base m entry))
          (scan_bus-Adds k (entry_base m entry)) (end_bus m entry - start_bus m entry)
          (start_bus m entry) s e)

-- With fewer than `2 ^ 16` entries the counter does not wrap.
scan_segments-for_from :
    (n rounds seg entries mcfg : ℕ) (s : Pci)
    → seg + n ≡ entries
    → entries < 2 ^ 16
    → n < rounds
    → scan_segments rounds seg entries mcfg s ≡ some (for_from n seg (scan_segment mcfg) s)
unfolding scan_segments for_from
scan_segments-for_from n zero seg entries mcfg s e small few = absurd (omega arith)
scan_segments-for_from zero (suc rounds) seg entries mcfg s e small few =
    if_false (ltb seg entries) _ _ (ground arith)
scan_segments-for_from (suc n) (suc rounds) seg entries mcfg s e small few =
    let word : (seg + 1) % 2 ^ 16 ≡ suc seg = omega arith in
    if_true (ltb seg entries) _ _ (ground arith)
    ∙ ap (λ k. scan_segments rounds k entries mcfg (scan_segment mcfg seg s)) word
    ∙ scan_segments-for_from n rounds (suc seg) entries mcfg (scan_segment mcfg seg s) (omega arith)
        small (omega arith)

-- From `2 ^ 16` entries on the loop does not end.
scan_segments-stuck :
    (rounds seg entries mcfg : ℕ) (s : Pci)
    → seg < 2 ^ 16
    → 2 ^ 16 ≤ entries
    → scan_segments rounds seg entries mcfg s ≡ none
unfolding scan_segments
scan_segments-stuck zero seg entries mcfg s word many = refl
scan_segments-stuck (suc rounds) seg entries mcfg s word many =
    if_true (ltb seg entries) _ _ (ground arith)
    ∙ scan_segments-stuck rounds ((seg + 1) % 2 ^ 16) entries mcfg (scan_segment mcfg seg s)
        (omega arith) many

-- Where the firmware has the table `MCFG`, with fewer than `2 ^ 16` entries by its length, and
-- rounds are given for each of them and one more, loading the cache returns, keeps the memory and
-- marks the cache as loaded, and the functions that come into the cache are exactly those whose
-- own header, and the headers at function 0 of their device and of their bus, are present, on a
-- bus from an entry's first up to and without its last, with the numbers under which they were
-- found.
pub pci_conf_load_cache_lem :
    (rounds rsdp signature mcfg : ℕ) (s : Pci)
    → acpi_get_table rounds s.memory rsdp signature 0 ≡ some mcfg
    → mcfg ≢ 0
    → table_entries s.memory mcfg < 2 ^ 16
    → table_entries s.memory mcfg < rounds
    → (t : Pci) × (pci_conf_load_cache rounds rsdp signature s ≡ some t)
      × (t.cached ≡ true)
      × (t.memory ≡ s.memory)
      × ((f : PciFunction)
          → Elem f t.cache ↔ (
              Elem f s.cache
              ⊎ Within s.memory f (table_entries s.memory mcfg) 0 (SegmentAt s.memory f mcfg)))
unfolding pci_conf_load_cache
pci_conf_load_cache_lem rounds rsdp signature mcfg s found here small few =
    let entries = table_entries s.memory mcfg in
    let t = for_from entries 0 (scan_segment mcfg) s in
    let loop = λ (f : PciFunction).
      for_from-Adds s.memory f (SegmentAt s.memory f mcfg) (scan_segment mcfg)
        (scan_segment-Adds s.memory f mcfg) entries 0 s refl in
    (
      record t { cached = true },
      rw (pci_conf_load_cache, found, ==_of_ne mcfg 0 here)
          (ap with_cached
            (scan_segments-for_from entries rounds 0 entries mcfg s (omega arith) small few)),
      refl,
      (loop (record { base = 0; segment = 0; bus = 0; device = 0; function = 0 })).kept,
      λ f. (loop f).added,
    )

-- Where the table has `2 ^ 16` entries or more by its length, and one that is shorter than its header
-- has, no number of rounds is enough.
pci_conf_load_cache-stuck :
    (rounds rsdp signature mcfg : ℕ) (s : Pci)
    → acpi_get_table rounds s.memory rsdp signature 0 ≡ some mcfg
    → mcfg ≢ 0
    → (table_length s.memory mcfg < 44) ⊎ (2 ^ 16 ≤ table_entries s.memory mcfg)
    → pci_conf_load_cache rounds rsdp signature s ≡ none
unfolding pci_conf_load_cache
pci_conf_load_cache-stuck rounds rsdp signature mcfg s found here many =
    let entries = table_entries s.memory mcfg in
    let all : 2 ^ 16 ≤ entries = elim many [ inl short ↦ omega (arith, short) | inr h ↦ h ] in
    rw (pci_conf_load_cache, found, ==_of_ne mcfg 0 here)
      (ap with_cached (scan_segments-stuck rounds 0 entries mcfg s (omega arith) all))
