-- ===== src/Prism/Decode.antt =====
-- `kbd_char_decode`, apps/frames/prism/src/kbd/kbd.c.
pub mod Letters
pub mod Control
mod Tests
use skylight.Base.{ℕ, ◌%◌, Bool, true, false, List, ◌==◌, ltb, if◌then◌else◌, get_or}
use skylight.Prism.Tables.{
  ascii_default, ascii_numlock, ascii_capslock, ascii_numlock_capslock, ascii_shift,
  ascii_shift_numlock, ascii_shift_capslock, ascii_shift_numlock_capslock,
}

-- The table for the states of shift, caps lock and num lock.
abbrev pub table : (shift caps nums : Bool) → List ℕ
table true true true = ascii_shift_numlock_capslock
table true true false = ascii_shift_capslock
table true false true = ascii_shift_numlock
table true false false = ascii_shift
table false true true = ascii_numlock_capslock
table false true false = ascii_capslock
table false false true = ascii_numlock
table false false false = ascii_default

-- `kbd_char_decode`. The release bit, the highest of the byte, is masked away.
unfoldable pub kbd_char_decode : (shift caps nums : Bool) → ℕ → ℕ
kbd_char_decode shift caps nums keycode =
    let key = keycode % 0x80 in
    if ltb 0x42 key then 0 else if key == 0 then 0 else get_or (table shift caps nums) key 0
