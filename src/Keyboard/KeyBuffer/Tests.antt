-- ===== src/Keyboard/KeyBuffer/Tests.antt =====
-- The key code buffer at a page of zeros.
use skylight.Base.{◌≡◌, refl, true, false, [], ◌∷◌, ◌++◌, arith, replicate, take}
use skylight.Keyboard.KeyBuffer.{KeyBuffer, no_pid, page_size, size_offset, kb_man, save_keys}
use skylight.Keyboard.KeyBuffer.Saving.{IsHeld, contents, contents-save_keys}
use skylight.Keyboard.KeyBuffer.Holding.{kb_man-exclusive}

abbrev unheld : KeyBuffer
unheld = record { current_buffer = 0; current_pid = no_pid; current_size = 0; page = [] }

abbrev held : KeyBuffer
held = record {
  current_buffer = 0x5000;
  current_pid = 1;
  current_size = 0x5ffe;
  page = replicate page_size 0;
}

held-IsHeld : IsHeld held
held-IsHeld = record {
  pid = omega arith;
  buffer = omega arith;
  counter = omega arith;
  size = refl;
  room = omega arith;
}

contents-save_keys_example :
    contents (save_keys (0x1b ∷ 0x9b ∷ []) held)
    ≡ contents held ++ take size_offset (0x1b ∷ 0x9b ∷ [])
contents-save_keys_example = contents-save_keys (0x1b ∷ 0x9b ∷ []) held held-IsHeld

kb_man-exclusive_example :
    let s' = (kb_man true 1 0x2000 0x1000 0x5000 [] unheld).1 in
    ((kb_man true 2 0x2000 0x1000 0x6000 [] s').0 ≡ 0)
    × ((kb_man true 2 0x2000 0x1000 0x6000 [] s').1 ≡ s')
    × ((kb_man false 2 0x2000 0x1000 0x6000 [] s').1 ≡ s')
    × ((kb_man true 2 0x2000 0x1000 0x6000 [] (kb_man false 1 0x2000 0x1000 0x6000 [] s').1).0
        ≡ 0x6000)
kb_man-exclusive_example =
    kb_man-exclusive 1 2 0x2000 0x1000 0x5000 0x6000 [] unheld refl (omega arith) (omega arith)
