-- ===== src/Prism/Decode/Control.antt =====
-- Keys whose characters are not the ones that their names say.
use skylight.Base.{◌≡◌, Bool, true, false, if◌then◌else◌, arith}
use skylight.Keyboard.Codes.{code, tab, backspace, enter, period}
use skylight.Prism.Decode.{kbd_char_decode}

-- In every state of shift, caps lock and num lock the tabulator key gives a line feed and the
-- backspace key a tabulator; the enter key gives a line feed under num lock, else no character.
pub decode_control :
    (shift caps nums : Bool)
    → (kbd_char_decode shift caps nums (code tab) ≡ 10)
      × (kbd_char_decode shift caps nums (code backspace) ≡ 9)
      × (kbd_char_decode shift caps nums (code enter) ≡ (if nums then 10 else 0))
unfolding kbd_char_decode
decode_control shift caps nums = ground arith

-- Under caps lock without shift the period key gives a comma.
pub decode_period : (nums : Bool) → kbd_char_decode false true nums (code period) ≡ b','
unfolding kbd_char_decode
decode_period nums = ground arith
