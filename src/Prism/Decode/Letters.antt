-- ===== src/Prism/Decode/Letters.antt =====
-- Characters of the letter keys, and the part of the keyboard that num lock does not touch.
use skylight.Base.{
  all_below, all_below_sound, ℕ, ◌-◌, ◌≤◌, ◌<◌, ◌≡◌, refl, Bool, true, false, ◌&&◌, ◌||◌, ◌==◌,
  ==_iff, leb, leb→le, if◌then◌else◌,
}
use mathlib.Core.Bool.{xor, false≢true}
use skylight.Prism.Decode.{kbd_char_decode}

-- A check of every number below a bound.
-- The codes of the keys Q to P, A to L and Z to M.
abbrev pub is_letter : ℕ → Bool
is_letter key =
    (leb 0x0e key && leb key 0x17)
    || (leb 0x1b key && leb key 0x23)
    || (leb 0x26 key && leb key 0x2c)

abbrev pub shifted : Bool → ℕ → ℕ
shifted upper c = if upper then c - 32 else c

check_letter : (shift caps nums : Bool) → ℕ → Bool
check_letter shift caps nums key =
    if is_letter key
    then (let lower = kbd_char_decode false false false key in
        leb b'a' lower
        && leb lower b'z'
        && (kbd_char_decode shift caps nums key == shifted (xor shift caps) lower))
    else true

letter_table : (shift caps nums : Bool) → all_below 0x80 (check_letter shift caps nums) ≡ true
unfolding check_letter kbd_char_decode xor
letter_table true true true = refl
letter_table true true false = refl
letter_table true false true = refl
letter_table true false false = refl
letter_table false true true = refl
letter_table false true false = refl
letter_table false false true = refl
letter_table false false false = refl

-- The two halves of a test that passes.
and_parts : (a b : Bool) → (a && b) ≡ true → (a ≡ true) × (b ≡ true)
and_parts true b h = (refl, h)
and_parts false b h = absurd (false≢true h)

letter_parts :
    (letter a b c : Bool)
    → letter ≡ true
    → (if letter then a && b && c else true) ≡ true
    → (a ≡ true) × (b ≡ true) × (c ≡ true)
letter_parts false a b c e h = absurd (false≢true e)
letter_parts true a b c e h =
    let (rest, pc) = and_parts (a && b) c h in let (pa, pb) = and_parts a b rest in (pa, pb, pc)

-- A letter key gives a small letter without shift and the locks; whatever num lock is, it gives
-- that letter's capital where exactly one of shift and caps lock is on, else the small letter.
pub decode_letter :
    (shift caps nums : Bool) (key : ℕ)
    → key < 0x80
    → is_letter key ≡ true
    → (b'a' ≤ kbd_char_decode false false false key)
      × (kbd_char_decode false false false key ≤ b'z')
      × (kbd_char_decode shift caps nums key
          ≡ shifted (xor shift caps) (kbd_char_decode false false false key))
unfolding check_letter
decode_letter shift caps nums key small letter =
    let checked =
      all_below_sound 0x80 (check_letter shift caps nums) key (letter_table shift caps nums)
        small in
    let (low, high, same) = letter_parts (is_letter key) _ _ _ letter checked in
    (leb→le _ _ low, leb→le _ _ high, (==_iff _ _).0 same)

check_numlock : (shift caps : Bool) → ℕ → Bool
check_numlock shift caps key =
    kbd_char_decode shift caps true key == kbd_char_decode shift caps false key

numlock_table : (shift caps : Bool) → all_below 0x31 (check_numlock shift caps) ≡ true
unfolding check_numlock kbd_char_decode
numlock_table true true = refl
numlock_table true false = refl
numlock_table false true = refl
numlock_table false false = refl

-- Below the keypad, for key codes up to 0x30, a key gives the same character with num lock as
-- without, whatever shift and caps lock are.
pub decode-numlock :
    (shift caps : Bool) (key : ℕ)
    → key < 0x31
    → kbd_char_decode shift caps true key ≡ kbd_char_decode shift caps false key
unfolding check_numlock
decode-numlock shift caps key small =
    (==_iff _ _).0
      (all_below_sound 0x31 (check_numlock shift caps) key (numlock_table shift caps) small)
