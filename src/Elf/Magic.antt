-- ===== src/Elf/Magic.antt =====
-- The test of the magic number in `elf_load_program` of kernel/src/proc/loader/elf.c.
use skylight.Base.{
  ℕ, ◌+◌, ◌^◌, ◌<◌, ◌≡◌, ◌≢◌, Bool, false, not, ◌&&◌, ◌||◌, ◌==◌, ltb, arith, if_true,
}
use skylight.Strings.{Memory, difference, strncmp}
use skylight.LittleEndian.{read_bytes}
use skylight.Elf.{elf_arch_x86_64, is_refused}

-- The tests but that of the magic number.
abbrev pub other_tests : Memory → (file : ℕ) → Bool
other_tests m file =
    not (read_bytes 2 m (file + 18) == elf_arch_x86_64)
    || not (m (file + 5) == 1)
    || not (m (file + 4) == 2)
    || not (m (file + 7) == 0)

-- A first byte that is another one compares below 0x7f.
first_differs :
    (m : Memory) (file magic : ℕ)
    → m file < 256
    → m magic ≡ 0x7F
    → m file ≢ 0x7F
    → strncmp m file magic 4 ≡ difference (m file) (m magic)
unfolding strncmp
first_differs m file magic byte e ne = if_true (not (m file == m magic)) _ _ (ground arith)

never_above :
    (a b : ℕ)
    → a < 256
    → b ≡ 0x7F
    → a ≢ 0x7F
    → (ltb 0 (difference a b) && ltb (difference a b) (2 ^ 31)) ≡ false
never_above a b byte e ne = ground arith

-- A file whose first byte is not that of the magic number is refused only by the tests of the
-- architecture, the byte order, the width and the interface: the test of the magic number passes.
pub is_refused-wrong_magic :
    (m : Memory) (file magic : ℕ)
    → m file < 256
    → m magic ≡ 0x7F
    → m file ≢ 0x7F
    → is_refused m file magic ≡ other_tests m file
unfolding is_refused
is_refused-wrong_magic m file magic byte e ne =
    rw (first_differs m file magic byte e ne, never_above (m file) (m magic) byte e ne)
