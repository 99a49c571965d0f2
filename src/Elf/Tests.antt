-- ===== src/Elf/Tests.antt =====
-- Examples for the loader of programs.
use skylight.Base.{◌%◌, ◌≡◌, refl, [], ◌∷◌, none, arith}
use skylight.Strings.{Memory}
use skylight.Elf.{ProgramHeader, LoadInfo, Pools, elf_load_segment, elf_is_page_mapped, is_refused}
use skylight.Elf.Segments.{elf_load_segment-stuck}
use skylight.Elf.Magic.{other_tests, is_refused-wrong_magic}

abbrev memory : Memory
memory q = q % 256

abbrev pools : Pools
pools segments pages = 0x200000

abbrev header : ProgramHeader
header = record { kind = 1; p_offset = 100; p_vaddr = 0x400010; p_filesz = 10; p_memsz = 20 }

abbrev no_segments : LoadInfo
no_segments = record { entry = 0x400010; segments = [] }

-- The page of the first segment, in which another begins that has no byte in the file.
abbrev first_page : LoadInfo
first_page = record {
  entry = 0x400010;
  segments = record { loaded_at = 0x400010; located_at = 0x200000; length = 0x1000 } ∷ [];
}

abbrev zeros : ProgramHeader
zeros = record { kind = 1; p_offset = 110; p_vaddr = 0x400800; p_filesz = 0; p_memsz = 64 }

elf_load_segment-stuck_example : elf_load_segment pools 100 1000 zeros first_page memory ≡ none
unfolding elf_is_page_mapped
elf_load_segment-stuck_example =
    elf_load_segment-stuck pools 100 1000 zeros first_page memory (omega arith) (omega arith)
      (omega arith) refl refl

-- The byte at 513 is 1, and the one at 127 is 127.
is_refused-wrong_magic_example : is_refused memory 513 127 ≡ other_tests memory 513
is_refused-wrong_magic_example =
    is_refused-wrong_magic memory 513 127 (omega arith) refl (omega arith)
