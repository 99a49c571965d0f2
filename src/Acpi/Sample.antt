-- ===== src/Acpi/Sample.antt =====
-- A memory with two tables of the firmware, for examples.
use skylight.Base.{ℕ, zero, suc, ◌+◌, ◌^◌, ◌<◌, ◌≡◌, ◌≢◌, ◌∙◌, refl, ap, List, [], ◌∷◌, some, arith}
use skylight.Strings.{Memory}
use skylight.Strings.Bytes.{IsString}
use skylight.LittleEndian.{read_bytes, write_bytes, write_bytes-bytes}
use skylight.Acpi.{entries_of, acpi_get_table}
use skylight.Acpi.Tables.{root_of, entry_of, nth_named, is_named, tables_of, acpi_get_table_lem}

abbrev pub Word : Type 0
Word = ℕ × ℕ × ℕ

abbrev pub write_all : List Word → Memory
write_all [] q = 0
write_all ((n, p, v) ∷ ws) q = write_bytes n (write_all ws) p v q

pub write_all-bytes : (ws : List Word) (q : ℕ) → write_all ws q < 256
write_all-bytes [] q = omega arith
write_all-bytes ((n, p, v) ∷ ws) q = write_bytes-bytes n (write_all ws) p v (write_all-bytes ws) q

-- A root pointer at 100, the table that lists two others at 1000, and a name at 10. The second table
-- has an entry for one bus, on which one function answers, at 65536.
abbrev pub words : List Word
words =
    (8, 124, 2 ^ 47 + 1000)
    ∷ (4, 1004, 52)
    ∷ (8, 1036, 2 ^ 47 + 2000)
    ∷ (8, 1044, 2 ^ 47 + 3000)
    ∷ (4, 3004, 60)
    ∷ (4, 2000, 0x43495041)
    ∷ (4, 3000, 0x4746434D)
    ∷ (4, 10, 0x4746434D)
    ∷ (8, 3044, 2 ^ 47 + 65536)
    ∷ (1, 3055, 1)
    ∷ (2, 65538, 0x1234)
    ∷ []

abbrev pub memory : Memory
memory = write_all words

abbrev pub mcfg : List ℕ
mcfg = b'M' ∷ b'C' ∷ b'F' ∷ b'G' ∷ []

pub mcfg-IsString : IsString memory 10 mcfg
unfolding write_bytes
mcfg-IsString = omega arith

pub filled : (j : ℕ) → j < entries_of memory (root_of memory 100) → entry_of memory 100 j ≢ 0
unfolding read_bytes write_bytes
filled zero h = omega arith
filled (suc zero) h = omega arith
filled (suc (suc j)) h = absurd (omega arith)

pub searched :
    acpi_get_table 9 memory 100 10 0
    ≡ some (nth_named (is_named memory mcfg) (tables_of memory 100) 0)
unfolding read_bytes write_bytes
searched =
    acpi_get_table_lem 9 memory 100 10 0 mcfg (write_all-bytes words) refl mcfg-IsString refl
      (omega arith) (omega arith) (omega arith) filled

-- It is the second table.
second : nth_named (is_named memory mcfg) (tables_of memory 100) 0 ≡ 3000
unfolding read_bytes write_bytes
second = refl

pub found : acpi_get_table 9 memory 100 10 0 ≡ some 3000
found = searched ∙ ap some second
