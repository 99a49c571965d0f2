-- ===== src/Keyboard/Ps2/Sequences.antt =====
-- Every scancode that the driver translates is assembled from its bytes, one interrupt each.
use skylight.Base.{
  ℕ, zero, suc, ◌+◌, ◌/◌, ◌%◌, ◌≡◌, ◌≢◌, ◌∙◌, refl, ap, Bool, true, false, ◌&&◌, ◌||◌, List, [],
  ◌∷◌, arith, ◌==◌, ==_iff, ltb, if◌then◌else◌,
}
use Prim.Native.Nat.{bit_or}
use skylight.Keyboard.Scancodes.{translations, find_code, ps2_translate_keycode}
use skylight.Keyboard.Ps2.{Event, needs_next_byte, render, handle_scancode, irq_handler, irq_bytes}
use skylight.Keyboard.Ps2.Assembly.{idle, idle-IsListening, irq_bytes-IsListening, eq-idle}

-- A check of each translated scancode with its key code.
abbrev all_cases : (ℕ → ℕ → Bool) → List (ℕ × ℕ) → Bool
all_cases p [] = true
all_cases p ((c, key) ∷ cases) = p c key && all_cases p cases

-- What is checked of each case holds of each scancode that is translated.
find_code_sound :
    (p : ℕ → ℕ → Bool) (code : ℕ) (cases : List (ℕ × ℕ))
    → all_cases p cases ≡ true
    → find_code code cases ≢ 0
    → p code (find_code code cases) ≡ true
unfolding find_code
find_code_sound p code [] h ne = absurd (ne refl)
find_code_sound p code ((c, key) ∷ cases) h ne = ground (arith, find_code_sound p code cases)

-- The bytes of a scancode, the first one sent first.
abbrev pub bytes_of : ℕ → ℕ → List ℕ → List ℕ
bytes_of zero n acc = acc
bytes_of (suc fuel) n acc =
    let rest = bytes_of fuel (n / 256) ((n % 256) ∷ acc) in if n == 0 then acc else rest

abbrev pub scancode_bytes : ℕ → List ℕ
scancode_bytes rendered = bytes_of 8 rendered []

abbrev pub saved_keys : List Event → List ℕ
saved_keys [] = []
saved_keys (Event.save_key k ∷ sent) = k ∷ saved_keys sent
saved_keys (Event.mask_irq _ ∷ sent) = saved_keys sent
saved_keys (Event.unmask_irq _ ∷ sent) = saved_keys sent
saved_keys (Event.discard_byte ∷ sent) = saved_keys sent
saved_keys (Event.send_eoi ∷ sent) = saved_keys sent

abbrev is_one : List ℕ → ℕ → Bool
is_one [] key = false
is_one (k ∷ []) key = k == key
is_one (k ∷ l ∷ ks) key = false

is_one→eq : (ks : List ℕ) (key : ℕ) → is_one ks key ≡ true → ks ≡ key ∷ []
is_one→eq [] key h = cc
is_one→eq (k ∷ []) key h = ap (λ n. n ∷ []) ((==_iff k key).0 h)
is_one→eq (k ∷ l ∷ ks) key h = cc

and_parts : (a b : Bool) → (a && b) ≡ true → (a ≡ true) × (b ≡ true)
and_parts a b h = ground arith

check_assembled : ℕ → ℕ → ℕ → Bool
check_assembled gsi code key =
    let (s, sent) = irq_bytes (scancode_bytes code) (idle gsi) in
    is_one (saved_keys sent) key && (s.pos == 0)

assembled_table : (gsi : ℕ) → all_cases (check_assembled gsi) translations ≡ true
unfolding check_assembled irq_bytes irq_handler needs_next_byte handle_scancode render
    ps2_translate_keycode
assembled_table gsi = refl

module _ (gsi rendered : ℕ) (known : ps2_translate_keycode rendered ≢ 0) where
  assembled : check_assembled gsi rendered (ps2_translate_keycode rendered) ≡ true
  unfolding ps2_translate_keycode
  assembled =
      find_code_sound (check_assembled gsi) rendered translations (assembled_table gsi) known

  -- For every scancode that has a key, its bytes, arriving at an idle driver with one interrupt
  -- each, save exactly that key's code, once, and leave the driver idle.
  pub irq_bytes-saved :
      let run = irq_bytes (scancode_bytes rendered) (idle gsi) in
      (saved_keys run.1 ≡ ps2_translate_keycode rendered ∷ []) × (run.0 ≡ idle gsi)
  unfolding check_assembled
  irq_bytes-saved =
      let run = irq_bytes (scancode_bytes rendered) (idle gsi) in
      let kept =
        irq_bytes-IsListening (scancode_bytes rendered) (idle gsi) (idle-IsListening gsi) in
      let both = and_parts _ (run.0.pos == 0) assembled in
      (
        is_one→eq (saved_keys run.1) (ps2_translate_keycode rendered) both.0,
        eq-idle run.0 kept.0 ((==_iff run.0.pos 0).0 both.1) ∙ ap idle kept.1,
      )

-- The scancode that the release of a key sends: `0xf0` before the last byte.
abbrev pub released_scancode : ℕ → ℕ
released_scancode code = if ltb code 0x100 then 0xf000 + code else 0xe0f000 + code % 0x100

-- Scancodes of keys that go down and have one byte, or two that begin with `0xe0`.
abbrev pub is_plain_press : ℕ → Bool
is_plain_press code = ltb code 0x100 || (code / 0x100 == 0xe0)

check_released : ℕ → ℕ → Bool
check_released code key =
    if is_plain_press code
    then ps2_translate_keycode (released_scancode code) == bit_or 0x80 key
    else true

released_table : all_cases check_released translations ≡ true
unfolding check_released ps2_translate_keycode
released_table = refl

-- For every scancode that has a key and is one byte long, or two bytes the first of which is 0xe0,
-- the scancode with 0xf0 before its last byte gives the same key code with the highest bit set.
pub translate-released :
    (code : ℕ)
    → ps2_translate_keycode code ≢ 0
    → is_plain_press code ≡ true
    → ps2_translate_keycode (released_scancode code) ≡ bit_or 0x80 (ps2_translate_keycode code)
unfolding check_released ps2_translate_keycode
translate-released code known plain =
    (==_iff _ _).0
      (simp plain at (find_code_sound check_released code translations released_table known))
