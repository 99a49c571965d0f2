-- ===== src/Keyboard/Ps2/Tests.antt =====
-- The PS/2 driver's theorems at single keys, and two keys that one code stands for.
use skylight.Base.{◌≡◌, ◌≢◌, refl, [], ◌∷◌, arith}
use skylight.Keyboard.Codes.{code, kp_minus, kp_plus}
use skylight.Keyboard.Scancodes.{ps2_translate_keycode}
use skylight.Keyboard.Ps2.{irq_bytes}
use skylight.Keyboard.Ps2.Assembly.{IsBuffered, idle, irq_bytes-IsBuffered}
use skylight.Keyboard.Ps2.Sequences.{saved_keys, scancode_bytes, irq_bytes-saved}

irq_bytes-IsBuffered_example :
    IsBuffered (irq_bytes (0xe1 ∷ 0x14 ∷ 0x77 ∷ 0xe1 ∷ 0xf0 ∷ []) (idle 1)).0
irq_bytes-IsBuffered_example =
    irq_bytes-IsBuffered (0xe1 ∷ 0x14 ∷ 0x77 ∷ 0xe1 ∷ 0xf0 ∷ []) (idle 1)
      (record { size = refl; room = omega arith })

pause_known : ps2_translate_keycode 0xe11477e1f014f077 ≢ 0
unfolding ps2_translate_keycode
pause_known = omega arith

irq_bytes-saved_example :
    let run = irq_bytes (scancode_bytes 0xe11477e1f014f077) (idle 1) in
    (saved_keys run.1 ≡ ps2_translate_keycode 0xe11477e1f014f077 ∷ []) × (run.0 ≡ idle 1)
irq_bytes-saved_example = irq_bytes-saved 1 0xe11477e1f014f077 pause_known

left_known : ps2_translate_keycode 0xe06b ≢ 0
unfolding ps2_translate_keycode
left_known = omega arith

same_code : code kp_minus ≡ code kp_plus
same_code = refl
