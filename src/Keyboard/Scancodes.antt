-- ===== src/Keyboard/Scancodes.antt =====
-- `ps2_translate_keycode`: scancodes of set 2 to HID key codes.
mod Press
mod Release
pub use Press.{pressed, extended_pressed}
pub use Release.{released, extended_released, sequences}
use skylight.Base.{ℕ, Bool, List, [], ◌∷◌, ◌++◌, ◌==◌, if◌then◌else◌}

-- The cases of the `switch`, in order.
abbrev pub translations : List (ℕ × ℕ)
translations = pressed ++ (extended_pressed ++ (released ++ (extended_released ++ sequences)))

unfoldable pub find_code : ℕ → List (ℕ × ℕ) → ℕ
find_code code [] = 0
find_code code ((c, key) ∷ cases) = if code == c then key else find_code code cases

-- A scancode with no case gives `HID_KEYCODE_NULL`, which is 0.
unfoldable pub ps2_translate_keycode : ℕ → ℕ
unfolding find_code
ps2_translate_keycode rendered = find_code rendered translations
