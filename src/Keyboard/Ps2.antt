-- ===== src/Keyboard/Ps2.antt =====
-- The interrupt handler of the PS/2 keyboard, kernel/src/iodev/hid/ps2/ps2_kbd.c. What it asks of
-- the interrupt controller and of the port, and the key codes that it hands on, are logged.
pub mod Assembly
pub mod Sequences
mod Tests
use Prim.Native.Nat.{bit_or}
use skylight.Base.{
  ℕ, zero, suc, ◌+◌, ◌*◌, ◌%◌, ◌^◌, Bool, true, false, not, ◌&&◌, ◌||◌, List, [], ◌∷◌, ◌++◌, ◌==◌,
  if◌then◌else◌, get_or, set, replicate,
}
use skylight.Keyboard.Scancodes.{ps2_translate_keycode}

pub data Event : Type 0 where
  mask_irq : (gsi : ℕ) → Event
  unmask_irq : (gsi : ℕ) → Event
  discard_byte : Event
  send_eoi : Event
  save_key : (keycode : ℕ) → Event

-- The globals that the handler reads and writes. `buffer` is `__kbd_scancode_buffer[8]`.
pub record Ps2 : Type 0 where
  pub scan_set : ℕ
  pub gsi : ℕ
  pub buffer : List ℕ
  pub pos : ℕ
  pub ismasked : Bool
  pub commanding : Bool

abbrev pub scancodes_supported : ℕ
scancodes_supported = 2

-- `ps2_kbd_validate_state`
abbrev pub validate_state : Ps2 → Bool
validate_state s = (s.scan_set == scancodes_supported) && not s.ismasked

-- `ps2_kbd_needs_next_byte`, only for scan code set two.
unfoldable pub needs_next_byte : List ℕ → ℕ → Bool
needs_next_byte scancode bytes =
    let at = λ (i : ℕ). get_or scancode i 0 in
    if bytes == 1
    then (at 0 == 0xe0) || (at 0 == 0xf0) || (at 0 == 0xe1)
    else if bytes == 2
    then (at 1 == 0xf0) || ((at 0 == 0xe0) && (at 1 == 0x12)) || ((at 0 == 0xe1) && (at 1 == 0x14))
    else if bytes == 3
    then (at 2 == 0x77) || (at 2 == 0x7c) || (at 2 == 0xe0)
    else if bytes == 4
    then (at 3 == 0xe0) || (at 3 == 0xe1)
    else if bytes == 5
    then at 4 == 0xf0
    else if bytes == 6
    then at 5 == 0x14
    else if bytes == 7
    then at 6 == 0xf0
    else false

-- The loop of `ps2_kbd_handle_scancode` over the first `bytes` bytes, on a 64-bit word.
unfoldable pub render : ℕ → List ℕ → ℕ → ℕ
render acc scancode zero = acc
render acc [] (suc bytes) = acc
render acc (c ∷ scancode) (suc bytes) = render (bit_or ((acc * 256) % 2 ^ 64) c) scancode bytes

-- `hid_register_keystroke`: the null key code is dropped.
abbrev pub register_keystroke : ℕ → List Event
register_keystroke keycode = if keycode == 0 then [] else save_key keycode ∷ []

-- `ps2_kbd_handle_scancode`
unfoldable pub handle_scancode : List ℕ → ℕ → List Event
handle_scancode scancode bytes =
    if bytes == 0 then [] else register_keystroke (ps2_translate_keycode (render 0 scancode bytes))

-- `__ps2_kbd_clear_scan_buffer`
abbrev pub clear_scan_buffer : Ps2 → Ps2
clear_scan_buffer s = record s { buffer = replicate 8 0; pos = 0 }

-- `ps2_kbd_set_mask`
abbrev pub set_mask : Bool → Ps2 → Ps2 × List Event
set_mask masked s =
    (record s { ismasked = masked }, (if masked then mask_irq s.gsi else unmask_irq s.gsi) ∷ [])

-- `__kbd_ps2_irq_handler`, where the data port holds `byte`.
unfoldable pub irq_handler : ℕ → Ps2 → Ps2 × List Event
irq_handler byte s =
    if not (validate_state s) || s.commanding
    then (let (masked, asked) = set_mask true s in
        (
          masked,
          asked ++ ((if masked.commanding then [] else discard_byte ∷ []) ++ (send_eoi ∷ [])),
        ))
    else let filled = record s { buffer = set s.buffer s.pos byte; pos = s.pos + 1 } in
      if needs_next_byte filled.buffer filled.pos
      then (filled, send_eoi ∷ [])
      else (clear_scan_buffer filled, handle_scancode filled.buffer filled.pos ++ (send_eoi ∷ []))

-- One interrupt for each byte.
unfoldable pub irq_bytes : List ℕ → Ps2 → Ps2 × List Event
irq_bytes [] s = (s, [])
irq_bytes (byte ∷ bytes) s =
    let (s', sent) = irq_handler byte s in
    let (s'', more) = irq_bytes bytes s' in (s'', sent ++ more)
