-- ===== src/Prism/Tables.antt =====
-- The eight tables of apps/frames/prism/src/kbd/tables.c.
mod Plain
mod Shift
pub use Plain.{ascii_default, ascii_numlock, ascii_capslock, ascii_numlock_capslock}
pub use Shift.{ascii_shift, ascii_shift_numlock, ascii_shift_capslock, ascii_shift_numlock_capslock}
