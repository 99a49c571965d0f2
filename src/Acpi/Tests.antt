-- ===== src/Acpi/Tests.antt =====
-- An example for the search for a table.
use skylight.Base.{◌≡◌, refl, some, arith}
use skylight.LittleEndian.{read_bytes, write_bytes}
use skylight.Acpi.{acpi_get_table}
use skylight.Acpi.Tables.{nth_named, is_named, tables_of, acpi_get_table_lem}
use skylight.Acpi.Sample.{memory, words, mcfg, write_all-bytes, mcfg-IsString, filled}

acpi_get_table_lem_example :
    acpi_get_table 9 memory 100 10 0
    ≡ some (nth_named (is_named memory mcfg) (tables_of memory 100) 0)
unfolding read_bytes write_bytes
acpi_get_table_lem_example =
    acpi_get_table_lem 9 memory 100 10 0 mcfg (write_all-bytes words) refl mcfg-IsString refl
      (omega arith) (omega arith) (omega arith) filled
