-- ===== src/Elf.antt =====
-- kernel/src/proc/loader/elf.c: the loader of programs, over a memory of bytes in which the file is.
-- The pools of pages come from an argument, by the segments loaded so far and the number of pages.
pub mod Segments
pub mod Magic
mod Tests
use skylight.Base.{
  ℕ, zero, suc, ◌+◌, ◌-◌, ◌*◌, ◌/◌, ◌%◌, ◌^◌, Bool, true, false, not, ◌&&◌, ◌||◌, List, [], ◌∷◌,
  ◌++◌, Option, none, some, ◌==◌, ltb, leb, if◌then◌else◌, add64, sub64, mul64,
}
use skylight.Strings.{Memory, strncmp}
use skylight.LittleEndian.{read_bytes}
use skylight.Pmm.{paging_page_size}
use skylight.Serial.Shell.{memset}

-- The effect of `memcpy` on blocks that do not overlap.
abbrev pub memcpy : Memory → (dest src n : ℕ) → Memory
memcpy m dest src n q = if leb dest q && ltb q (dest + n) then m (src + (q - dest)) else m q

-- `elf_program_header_t`, of which the loader reads these fields.
pub record ProgramHeader : Type 0 where
  pub kind : ℕ
  pub p_offset : ℕ
  pub p_vaddr : ℕ
  pub p_filesz : ℕ
  pub p_memsz : ℕ

pub record LoadedPage : Type 0 where
  pub loaded_at : ℕ
  pub located_at : ℕ
  pub length : ℕ

-- The array of segments is a list, and `segment_count` its length.
pub record LoadInfo : Type 0 where
  pub entry : ℕ
  pub segments : List LoadedPage

abbrev pub elf_segment_load : ℕ
elf_segment_load = 1

abbrev pub elf_arch_x86_64 : ℕ
elf_arch_x86_64 = 0x3E

abbrev pub read_program_header : Memory → ℕ → ProgramHeader
read_program_header m p = record {
  kind = read_bytes 4 m p;
  p_offset = read_bytes 8 m (p + 8);
  p_vaddr = read_bytes 8 m (p + 16);
  p_filesz = read_bytes 8 m (p + 32);
  p_memsz = read_bytes 8 m (p + 40);
}

unfoldable pub elf_is_page_mapped : List LoadedPage → (p_vaddr : ℕ) → Bool
elf_is_page_mapped [] p_vaddr = false
elf_is_page_mapped (s ∷ segments) p_vaddr =
    let rest = elf_is_page_mapped segments p_vaddr in
    if leb s.loaded_at p_vaddr && ltb p_vaddr (add64 s.loaded_at s.length) then true else rest

-- A round of the loop over the pages that are mapped: how many bytes it copies, and the header then.
abbrev pub chunk : ProgramHeader → ℕ
chunk h =
    let next_page_offset = paging_page_size - h.p_vaddr % paging_page_size in
    if ltb h.p_filesz next_page_offset then h.p_filesz else next_page_offset

abbrev pub advance : ProgramHeader → ProgramHeader
advance h = record h {
  p_vaddr = add64 h.p_vaddr (chunk h);
  p_offset = add64 h.p_offset (chunk h);
  p_filesz = sub64 h.p_filesz (chunk h);
  p_memsz = sub64 h.p_memsz (chunk h);
}

-- `none` is a loop that was given too few rounds. The loop also ends where no byte is left.
unfoldable pub copy_mapped :
    (rounds file : ℕ) → List LoadedPage → ProgramHeader → Memory → Option (ProgramHeader × Memory)
copy_mapped zero file segments h m = none
copy_mapped (suc rounds) file segments h m =
    let m' = memcpy m h.p_vaddr (add64 file h.p_offset) (chunk h) in
    let rest = copy_mapped rounds file segments (advance h) m' in
    if not (elf_is_page_mapped segments h.p_vaddr)
    then some (h, m)
    else if (advance h).p_memsz == 0
    then some (advance h, m')
    else rest

abbrev pub required_pages : ProgramHeader → ℕ
required_pages h =
    h.p_memsz / paging_page_size
    + (if h.p_memsz % paging_page_size == 0 then 0 else 1)
    + (if not (h.p_vaddr % paging_page_size == 0) then 1 else 0)

abbrev pub Pools : Type 0
Pools = List LoadedPage → (pages : ℕ) → ℕ

-- `strncmp (…) > 0` on a result of 32 bits.
unfoldable pub is_refused : Memory → (file magic : ℕ) → Bool
is_refused m file magic =
    let compared = strncmp m file magic 4 in
    (ltb 0 compared && ltb compared (2 ^ 31))
    || not (read_bytes 2 m (file + 18) == elf_arch_x86_64)
    || not (m (file + 5) == 1)
    || not (m (file + 4) == 2)
    || not (m (file + 7) == 0)

module _ (pools : Pools) where
  -- What is left after the mapped pages goes into a new pool.
  unfoldable pub place_segment : (file : ℕ) → ProgramHeader → LoadInfo → Memory → LoadInfo × Memory
  place_segment file h info m =
      let real_location = pools info.segments (required_pages h) in
      let target = real_location + h.p_vaddr % 2 ^ 12 in
      let segment : LoadedPage = record {
        loaded_at = h.p_vaddr;
        located_at = real_location;
        length = mul64 (required_pages h) paging_page_size;
      } in
      (
        record info { segments = info.segments ++ segment ∷ [] },
        memcpy (memset m target 0 h.p_memsz) target (add64 file h.p_offset) h.p_filesz,
      )

  unfoldable pub elf_load_segment :
      (rounds file : ℕ) → ProgramHeader → LoadInfo → Memory → Option (LoadInfo × Memory)
  unfolding copy_mapped elf_is_page_mapped place_segment
  elf_load_segment rounds file h info m =
      if h.p_memsz == 0 then some (info, m) else elim (copy_mapped rounds file info.segments h m) [
        | none ↦ none
        | some (h', m') ↦
            if h'.p_memsz == 0 then some (info, m') else some (place_segment file h' info m')
      ]

  -- The loop over the program headers, at `offset` of the table.
  unfoldable pub load_headers :
      (rounds file table size entry_size offset : ℕ)
      → LoadInfo
      → Memory
      → Option (LoadInfo × Memory)
  load_headers zero file table size entry_size offset info m = none
  load_headers (suc rounds) file table size entry_size offset info m =
      if leb size offset
      then some (info, m)
      else let h = read_program_header m (file + table + offset) in
        elim (if h.kind == elf_segment_load
          then elf_load_segment (suc rounds) file h info m
          else some (info, m)) [
            | none ↦ none
            | some (info', m') ↦
                load_headers rounds file table size entry_size (offset + entry_size) info' m'
          ]

  -- The magic number is a string at `magic`. The inner `none` is NULL.
  unfoldable pub elf_load_program :
      (rounds : ℕ) → Memory → (file magic : ℕ) → Option (Option LoadInfo × Memory)
  unfolding load_headers is_refused
  elf_load_program rounds m file magic =
      if is_refused m file magic
      then some (none, m)
      else let entry_size = read_bytes 2 m (file + 54) in
        let size = entry_size * read_bytes 2 m (file + 56) in
        let info : LoadInfo = record { entry = read_bytes 8 m (file + 24); segments = [] } in
        elim (load_headers rounds file (read_bytes 8 m (file + 32)) size entry_size 0 info m) [
          | none ↦ none
          | some (loaded, m') ↦ some (some loaded, m')
        ]
