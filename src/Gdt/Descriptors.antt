-- ===== src/Gdt/Descriptors.antt =====
-- The descriptors that kernel/src/cpu/gdt/gdt.c writes, read as the processor reads them.
use skylight.Base.{
  ℕ, suc, ◌+◌, ◌*◌, ◌/◌, ◌%◌, ◌^◌, ◌≤◌, ◌<◌, ◌≡◌, ◌∙◌, ◌⊎◌, ap, inl, leb, arith, if_false, some,
  ◌==◌,
}
use skylight.Strings.{Memory}
use skylight.LittleEndian.{read_bytes, write_bytes, write_bytes_ne, read_bytes-same, read-write}
use skylight.Gdt.{
  Gdt, gdt_max_descriptors, write_descriptor, gdt_add_descriptor, write_tss, gdt_install_tss,
}

abbrev pub limit_of : Memory → ℕ → ℕ
limit_of m p = read_bytes 2 m p + 2 ^ 16 * (read_bytes 1 m (p + 6) % 2 ^ 4)

abbrev pub base_of : Memory → ℕ → ℕ
base_of m p =
    read_bytes 2 m (p + 2) + 2 ^ 16 * read_bytes 1 m (p + 4) + 2 ^ 24 * read_bytes 1 m (p + 7)

abbrev pub tss_base_of : Memory → ℕ → ℕ
tss_base_of m p = base_of m p + 2 ^ 32 * read_bytes 4 m (p + 8)

module _ (p base limit access granularity : ℕ) (m : Memory) where
  abbrev written : Memory
  written = write_descriptor p base limit access granularity m

  -- The bytes of the descriptor, one after another.
  low_bytes :
      (written p ≡ limit % 256)
      × (written (suc p) ≡ limit / 256 % 256)
      × (written (p + 2) ≡ base % 2 ^ 16 % 256)
      × (written (suc (p + 2)) ≡ base % 2 ^ 16 / 256 % 256)
  unfolding write_descriptor write_bytes
  low_bytes = (ground arith, ground arith, ground arith, ground arith)

  high_bytes :
      (written (p + 4) ≡ base / 2 ^ 16 % 2 ^ 8 % 256)
      × (written (p + 5) ≡ access % 256)
      × (written (p + 6) ≡ granularity % 256)
      × (written (p + 7) ≡ base / 2 ^ 24 % 2 ^ 8 % 256)
  unfolding write_descriptor write_bytes
  high_bytes = (ground arith, ground arith, ground arith, ground arith)

  write_descriptor_ne : (q : ℕ) → (q < p) ⊎ (p + 8 ≤ q) → written q ≡ m q
  unfolding write_descriptor write_bytes
  write_descriptor_ne q out = ground (arith, out)

  write_descriptor_lem :
      limit < 2 ^ 16
      → access < 2 ^ 8
      → granularity < 2 ^ 8
      → (base_of written p ≡ base % 2 ^ 32)
        × (read_bytes 2 written p ≡ limit)
        × (read_bytes 1 written (p + 5) ≡ access)
        × (read_bytes 1 written (p + 6) ≡ granularity)
  unfolding read_bytes
  write_descriptor_lem small a g = (
    omega (arith, low_bytes, high_bytes),
    omega (arith, low_bytes),
    omega (arith, high_bytes),
    omega (arith, high_bytes),
  )

module _ (p tss : ℕ) (m : Memory) where
  abbrev installed : Memory
  installed = write_tss p tss m

  front_bytes :
      (installed p ≡ 0x70)
      × (installed (suc p) ≡ 0)
      × (installed (p + 2) ≡ tss % 2 ^ 16 % 256)
      × (installed (suc (p + 2)) ≡ tss % 2 ^ 16 / 256 % 256)
      × (installed (p + 4) ≡ tss / 2 ^ 16 % 2 ^ 8 % 256)
      × (installed (p + 5) ≡ 0x89)
      × (installed (p + 6) ≡ 0)
      × (installed (p + 7) ≡ tss / 2 ^ 24 % 2 ^ 8 % 256)
  unfolding write_tss write_bytes
  front_bytes = (
    ground arith,
    ground arith,
    ground arith,
    ground arith,
    ground arith,
    ground arith,
    ground arith,
    ground arith,
  )

  back_words :
      tss < 2 ^ 64
      → (read_bytes 4 installed (p + 8) ≡ tss / 2 ^ 32 % 2 ^ 32)
        × (read_bytes 4 installed (p + 12) ≡ 0)
  unfolding write_tss
  back_words word = (
    read_bytes-same 4 _ _ (p + 8)
          (λ q low high. write_bytes_ne 4 _ (p + 12) 0 q (inl (omega arith)))
        ∙ read-write 4 _ (p + 8) (tss / 2 ^ 32) (omega arith)
        ∙ omega arith,
    read-write 4 _ (p + 12) 0 (omega arith),
  )

  write_tss_ne : (q : ℕ) → (q < p) ⊎ (p + 16 ≤ q) → installed q ≡ m q
  unfolding write_tss write_bytes
  write_tss_ne q out = ground (arith, out)

  write_tss_lem :
      tss < 2 ^ 64
      → (tss_base_of installed p ≡ tss)
        × (limit_of installed p ≡ 0x70)
        × (read_bytes 1 installed (p + 5) ≡ 0x89)
        × (read_bytes 4 installed (p + 12) ≡ 0)
  unfolding read_bytes
  write_tss_lem word =
      let (high, reserved) = back_words word in
      (
        omega (arith, front_bytes, high),
        omega (arith, front_bytes),
        omega (arith, front_bytes),
        reserved,
      )

-- The base, limit, access and granularity of a descriptor can be read back, and no byte outside of
-- it changes.
pub gdt_add_descriptor_lem :
    (base limit access granularity : ℕ) (s : Gdt)
    → limit < 2 ^ 16
    → access < 2 ^ 8
    → granularity < 2 ^ 8
    → s.gindex < gdt_max_descriptors
    → (t : Gdt) × (gdt_add_descriptor base limit access granularity s ≡ t)
      × (t.gindex ≡ suc s.gindex)
      × (base_of t.table (s.gindex * 8) ≡ base % 2 ^ 32)
      × (read_bytes 2 t.table (s.gindex * 8) ≡ limit)
      × (read_bytes 1 t.table (s.gindex * 8 + 5) ≡ access)
      × (read_bytes 1 t.table (s.gindex * 8 + 6) ≡ granularity)
      × ((q : ℕ) → (q < s.gindex * 8) ⊎ (s.gindex * 8 + 8 ≤ q) → t.table q ≡ s.table q)
unfolding gdt_add_descriptor
gdt_add_descriptor_lem base limit access granularity s small a g room =
    let p = s.gindex * 8 in
    let (address, size, flags, grain) =
      write_descriptor_lem p base limit access granularity s.table small a g in
    (
      record {
        table = write_descriptor p base limit access granularity s.table;
        gindex = (s.gindex + 1) % 2 ^ 16;
      },
      if_false (leb gdt_max_descriptors s.gindex) _ _ (ground arith),
      omega arith,
      address,
      size,
      flags,
      grain,
      write_descriptor_ne p base limit access granularity s.table,
    )

-- With room for two descriptors, `gdt_install_tss` returns the selector of the next one and counts
-- two; the 16 bytes from there on read as the address of 64 bits, the limit 0x70, the type 0x89 and
-- zero, and no other byte changes.
pub gdt_install_tss_lem :
    (tss : ℕ) (s : Gdt)
    → tss < 2 ^ 64
    → s.gindex + 1 < gdt_max_descriptors
    → (t : Gdt) × (gdt_install_tss tss s ≡ some (s.gindex * 8, t))
      × (t.gindex ≡ s.gindex + 2)
      × (tss_base_of t.table (s.gindex * 8) ≡ tss)
      × (limit_of t.table (s.gindex * 8) ≡ 0x70)
      × (read_bytes 1 t.table (s.gindex * 8 + 5) ≡ 0x89)
      × (read_bytes 4 t.table (s.gindex * 8 + 12) ≡ 0)
      × ((q : ℕ) → (q < s.gindex * 8) ⊎ (s.gindex * 8 + 16 ≤ q) → t.table q ≡ s.table q)
unfolding gdt_install_tss
gdt_install_tss_lem tss s word room =
    let (base, limit, kind, reserved) = write_tss_lem (s.gindex * 8) tss s.table word in
    let t : Gdt = record {
      table = write_tss (s.gindex * 8) tss s.table;
      gindex = (s.gindex + 2) % 2 ^ 16;
    } in
    (
      t,
      if_false (leb gdt_max_descriptors s.gindex) _ _ (ground arith)
          ∙ if_false (s.gindex + 1 == gdt_max_descriptors) _ _ (ground arith)
          ∙ ap (λ k. some (k, t)) (omega arith),
      omega arith,
      base,
      limit,
      kind,
      reserved,
      write_tss_ne (s.gindex * 8) tss s.table,
    )
