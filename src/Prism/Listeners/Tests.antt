-- ===== src/Prism/Listeners/Tests.antt =====
-- Examples for apps/frames/prism/src/kbd/kbd.c.
use skylight.Base.{
  ℕ, ◌≡◌, refl, true, false, List, [], ◌∷◌, ◌++◌, replicate, take, arith, length, length-replicate,
}
use skylight.Keyboard.KeyBuffer.{KeyBuffer, save_keys, read_size}
use skylight.Keyboard.KeyBuffer.Saving.{IsHeld, save_keys-IsHeld}
use skylight.Prism.Listeners.{Keyboard, kbd_update}
use skylight.Prism.Listeners.Table.{Represents}
use skylight.Prism.Listeners.Update.{deliver, switches, kbd_update_lem, kbd_update-save_keys}

abbrev blank : List ℕ
blank = replicate 4096 0

-- A held, empty page of key codes.
abbrev fresh : KeyBuffer
fresh = record { current_buffer = 0x5000; current_pid = 1; current_size = 0x5ffe; page = blank }

-- The page after H and left shift were pressed.
abbrev typed : List ℕ
typed = 0x20 ∷ 0x45 ∷ []

abbrev keyboard : List ℕ → ℕ → Keyboard
keyboard registered free = record {
  internal_buffer = 0x5000;
  internal_buffer_size = 0x5ffe;
  page = (save_keys typed fresh).page;
  started = true;
  listeners = 0x6000;
  table = registered ++ replicate free 0;
  listeners_count = length registered;
  locks = record { shift = false; caps = false; nums = false };
  calls = [];
}

abbrev two : List ℕ
two = 0x401000 ∷ 0x402000 ∷ []

two-Represents : Represents (keyboard two 510) two
two-Represents = record { started = refl; count = refl; free = 510; size = refl; table = refl }

fresh-IsHeld : IsHeld fresh
fresh-IsHeld = record {
  pid = omega arith;
  buffer = omega arith;
  counter = omega arith;
  size = length-replicate {A = ℕ} 4096 0;
  room = omega arith;
}

-- A full table: 510 other listeners behind the first two.
abbrev full : List ℕ
full = two ++ replicate 510 0x403000

full-Represents : Represents (keyboard full 0) full
full-Represents = record { started = refl; count = refl; free = 0; size = refl; table = refl }

kbd_update_lem_example :
    ((kbd_update (keyboard two 510)).calls
      ≡ [] ++ deliver (take (read_size (keyboard two 510).page) (keyboard two 510).page) two)
    × ((kbd_update (keyboard two 510)).locks
        ≡ switches
            (take (read_size (keyboard two 510).page) (keyboard two 510).page)
            (keyboard two 510).locks)
    × (read_size (kbd_update (keyboard two 510)).page ≡ 0)
    × Represents (kbd_update (keyboard two 510)) two
kbd_update_lem_example =
    kbd_update_lem (keyboard two 510) two two-Represents
      (save_keys-IsHeld typed fresh fresh-IsHeld).size
      (save_keys-IsHeld typed fresh fresh-IsHeld).room

kbd_update-save_keys_example : (kbd_update (keyboard two 510)).calls ≡ [] ++ deliver typed two
kbd_update-save_keys_example =
    kbd_update-save_keys typed fresh (keyboard two 510) two fresh-IsHeld refl (omega arith)
      two-Represents refl

abbrev never_started : Keyboard
never_started = record (keyboard [] 512) { started = false; listeners = 0; table = [] }
