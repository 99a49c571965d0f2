-- ===== src/Keyboard/Ps2/Assembly.antt =====
-- The scancode buffer of the PS/2 handler: its bounds, and that it is clear between scancodes.
use skylight.Base.{
  ℕ, ◌+◌, ◌<◌, ◌≡◌, ◌∙◌, refl, true, false, List, [], ◌∷◌, arith, length, set, length-set,
  replicate,
}
use skylight.Keyboard.Ps2.{Ps2, scancodes_supported, needs_next_byte, irq_handler, irq_bytes}

-- The buffer is in bounds, and clear where no byte is waiting.
pub record IsBuffered (s : Ps2) : Type 0 where
  pub size : length s.buffer ≡ 8
  pub room : s.pos < 8

-- The driver takes bytes: it is set up, and neither masked nor in a command.
pub record IsListening (s : Ps2) : Type 0 where
  pub supported : s.scan_set ≡ scancodes_supported
  pub unmasked : s.ismasked ≡ false
  pub uncommanded : s.commanding ≡ false
  pub size : length s.buffer ≡ 8
  pub room : s.pos < 8
  pub clear : (s.pos ≡ 0) → s.buffer ≡ replicate 8 0

-- A scancode of eight bytes is complete.
needs_next_byte-lt : (l : List ℕ) (n : ℕ) → needs_next_byte l n ≡ true → n < 8
unfolding needs_next_byte
needs_next_byte-lt l n h = ground arith

-- Whatever byte arrives in whatever state, the write to the scancode buffer is in bounds, and so
-- is the next one.
pub irq_handler-IsBuffered : (byte : ℕ) (s : Ps2) → IsBuffered s → IsBuffered (irq_handler byte s).0
unfolding irq_handler
irq_handler-IsBuffered byte s v = ground (
  arith,
  length-set s.buffer s.pos byte,
  needs_next_byte-lt (set s.buffer s.pos byte) (s.pos + 1),
)

-- From a state in which the next write to the scancode buffer is in bounds, no sequence of bytes
-- brings the handler to a state in which it is not.
pub irq_bytes-IsBuffered :
    (bytes : List ℕ) (s : Ps2) → IsBuffered s → IsBuffered (irq_bytes bytes s).0
unfolding irq_bytes
irq_bytes-IsBuffered [] s v = v
irq_bytes-IsBuffered (byte ∷ bytes) s v =
    irq_bytes-IsBuffered bytes (irq_handler byte s).0 (irq_handler-IsBuffered byte s v)

irq_handler-IsListening :
    (byte : ℕ) (s : Ps2)
    → IsListening s
    → IsListening (irq_handler byte s).0 × ((irq_handler byte s).0.gsi ≡ s.gsi)
unfolding irq_handler
irq_handler-IsListening byte s v = ground (
  arith,
  v.clear,
  length-set s.buffer s.pos byte,
  needs_next_byte-lt (set s.buffer s.pos byte) (s.pos + 1),
)

pub irq_bytes-IsListening :
    (bytes : List ℕ) (s : Ps2)
    → IsListening s
    → IsListening (irq_bytes bytes s).0 × ((irq_bytes bytes s).0.gsi ≡ s.gsi)
unfolding irq_bytes
irq_bytes-IsListening [] s v = (v, refl)
irq_bytes-IsListening (byte ∷ bytes) s v =
    let step = irq_handler-IsListening byte s v in
    let rest = irq_bytes-IsListening bytes (irq_handler byte s).0 step.0 in
    (rest.0, rest.1 ∙ step.1)

-- The driver between two scancodes.
abbrev pub idle : ℕ → Ps2
idle gsi = record {
  scan_set = scancodes_supported;
  gsi = gsi;
  buffer = replicate 8 0;
  pos = 0;
  ismasked = false;
  commanding = false;
}

pub idle-IsListening : (gsi : ℕ) → IsListening (idle gsi)
idle-IsListening gsi = record {
  supported = refl;
  unmasked = refl;
  uncommanded = refl;
  size = refl;
  room = omega arith;
  clear = λ e. refl;
}

-- A listening driver with no byte waiting is idle.
pub eq-idle : (s : Ps2) → IsListening s → s.pos ≡ 0 → s ≡ idle s.gsi
eq-idle s v e = λ i. record {
  scan_set = v.supported i;
  gsi = s.gsi;
  buffer = v.clear e i;
  pos = e i;
  ismasked = v.unmasked i;
  commanding = v.uncommanded i;
}
