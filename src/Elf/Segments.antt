-- ===== src/Elf/Segments.antt =====
-- `elf_load_segment` of kernel/src/proc/loader/elf.c: a segment on pages of its own, and one that the
-- loader never finishes.
use skylight.Base.{
  ℕ, zero, suc, ◌+◌, ◌%◌, ◌^◌, ◌≤◌, ◌<◌, ◌≡◌, ◌≢◌, ◌∙◌, refl, sym, ap, true, not, List, none, ◌==◌,
  arith, ==_of_ne, if_false, mul64,
}
use skylight.Strings.{Memory}
use skylight.Pmm.{paging_page_size}
use skylight.Serial.Shell.{memset}
use skylight.Elf.{
  memcpy, ProgramHeader, LoadedPage, LoadInfo, elf_is_page_mapped, advance, copy_mapped,
  required_pages, Pools, elf_load_segment,
}

abbrev pub target_of : Pools → LoadInfo → ProgramHeader → ℕ
target_of pools info h = pools info.segments (required_pages h) + h.p_vaddr % 2 ^ 12

abbrev pub segment_of : Pools → LoadInfo → ProgramHeader → LoadedPage
segment_of pools info h = record {
  loaded_at = h.p_vaddr;
  located_at = pools info.segments (required_pages h);
  length = mul64 (required_pages h) paging_page_size;
}

-- A block that is cleared, and whose front is then copied from elsewhere.
module _ (m : Memory) (target source filesz memsz : ℕ) (inside : filesz ≤ memsz) where
  abbrev loaded : Memory
  loaded = memcpy (memset m target 0 memsz) target source filesz

-- A header with no byte left in the file stays as it is.
advance_same :
    (h : ProgramHeader)
    → h.p_memsz < 2 ^ 64
    → h.p_vaddr < 2 ^ 64
    → h.p_filesz ≡ 0
    → ((advance h).p_memsz ≡ h.p_memsz)
      × ((advance h).p_vaddr ≡ h.p_vaddr)
      × ((advance h).p_filesz ≡ 0)
advance_same h small word empty = ground arith

copy_mapped-stuck :
    (rounds file : ℕ) (segments : List LoadedPage) (h : ProgramHeader) (m : Memory)
    → h.p_memsz ≢ 0
    → h.p_memsz < 2 ^ 64
    → h.p_vaddr < 2 ^ 64
    → h.p_filesz ≡ 0
    → elf_is_page_mapped segments h.p_vaddr ≡ true
    → copy_mapped rounds file segments h m ≡ none
unfolding copy_mapped
copy_mapped-stuck zero file segments h m some_byte small word empty mapped = refl
copy_mapped-stuck (suc rounds) file segments h m some_byte small word empty mapped =
    let (memsz, vaddr, filesz) = advance_same h small word empty in
    if_false (not (elf_is_page_mapped segments h.p_vaddr)) _ _ (ap not mapped)
    ∙ if_false ((advance h).p_memsz == 0) _ _
        (==_of_ne (advance h).p_memsz 0 (λ z. some_byte (sym memsz ∙ z)))
    ∙ copy_mapped-stuck rounds file segments (advance h) _ (λ z. some_byte (sym memsz ∙ z))
        (omega (arith, memsz)) (omega (arith, vaddr)) filesz
        (ap (elf_is_page_mapped segments) vaddr ∙ mapped)

-- A segment with bytes in memory and none in the file that begins in a page loaded before is never
-- loaded, however many rounds are given: the loop goes on without end.
pub elf_load_segment-stuck :
    (pools : Pools) (rounds file : ℕ) (h : ProgramHeader) (info : LoadInfo) (m : Memory)
    → h.p_memsz ≢ 0
    → h.p_memsz < 2 ^ 64
    → h.p_vaddr < 2 ^ 64
    → h.p_filesz ≡ 0
    → elf_is_page_mapped info.segments h.p_vaddr ≡ true
    → elf_load_segment pools rounds file h info m ≡ none
unfolding elf_load_segment
elf_load_segment-stuck pools rounds file h info m some_byte small word empty mapped = rw (
  ==_of_ne h.p_memsz 0 some_byte,
  elf_load_segment,
  copy_mapped-stuck rounds file info.segments h m some_byte small word empty mapped,
)
