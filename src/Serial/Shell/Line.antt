-- ===== src/Serial/Shell/Line.antt =====
-- The line in the buffer of kernel/src/iodev/uart/shell.c, as a list of bytes, and what the shell
-- writes as the bytes that its port is given.
use skylight.Base.{
  ℕ, suc, ◌+◌, ◌<◌, ◌≡◌, ◌≢◌, ◌∙◌, sym, Bool, ◌&&◌, List, [], ◌∷◌, ◌++◌, map, ltb, leb,
  if◌then◌else◌, arith, length, ==_of_ne,
}
use mathlib.Core.List.{append_assoc, append-nil}
use mathlib.Core.Path.{subst}
use skylight.Strings.{Memory, store}
use skylight.Strings.Bytes.{IsString}
use skylight.Serial.{PortEvent, outb, com_register, send, internal_write}
use skylight.Serial.Shell.{Shell}

abbrev pub is_printable : ℕ → Bool
is_printable c = leb 0x20 c && leb c 0x7E

abbrev pub printables : List ℕ → List ℕ
printables [] = []
printables (c ∷ cs) = if is_printable c then c ∷ printables cs else printables cs

-- No character ends the line.
abbrev pub OnOneLine : List ℕ → Type 0
OnOneLine [] = Unit {0}
OnOneLine (c ∷ cs) = (c ≢ 10) × (c ≢ 13) × OnOneLine cs

-- The bytes `xs`, none of them 0, stand at `p`.
abbrev pub Holds : Memory → ℕ → List ℕ → Type 0
Holds m p [] = Unit {0}
Holds m p (x ∷ xs) = (m p ≡ x) × (0 < x) × (x < 256) × Holds m (suc p) xs

-- The buffer holds the line `xs`.
pub record IsLine (s : Shell) (xs : List ℕ) : Type 0 where
  pub index : s.command_buffer_index ≡ length xs
  pub bytes : Holds s.memory s.command_buffer xs

-- A text as the bytes that a port is given.
abbrev pub sent : (port : ℕ) → List ℕ → List PortEvent
sent port text = map (λ c. outb (com_register port 0) c) text

abbrev pub Nonzero : List ℕ → Type 0
Nonzero [] = Unit {0}
Nonzero (c ∷ cs) = (0 < c) × Nonzero cs

send_lem :
    (text : List ℕ) (port : ℕ) (wire : List PortEvent)
    → Nonzero text
    → send text port wire ≡ wire ++ sent port text
unfolding send
send_lem [] port wire h = sym (append-nil wire)
send_lem (c ∷ cs) port wire (pos, rest) = rw (==_of_ne c 0 (omega arith)) (
    send_lem cs port (wire ++ outb (com_register port 0) c ∷ []) rest
    ∙ append_assoc wire (outb (com_register port 0) c ∷ []) (sent port cs))

pub internal_write_lem :
    (text : List ℕ) (port : ℕ) (wire : List PortEvent)
    → port ≢ 0
    → Nonzero text
    → internal_write text port wire ≡ wire ++ sent port text
unfolding internal_write
internal_write_lem text port wire open_port h =
    rw (==_of_ne port 0 open_port) (send_lem text port wire h)

-- A byte behind the text extends it.
pub Holds-store :
    (m : Memory) (p c : ℕ) (xs : List ℕ)
    → 0 < c
    → c < 256
    → Holds m p xs
    → Holds (store m (p + length xs) c) p (xs ++ c ∷ [])
Holds-store m p c [] pos byte h = (ground arith, pos, byte, tt)
Holds-store m p c (x ∷ xs) pos byte (here, px, bx, rest) =
    let more = Holds-store m (suc p) c xs pos byte rest in
    (
      ground arith,
      px,
      bx,
      subst (λ k. Holds (store m k c) (suc p) (xs ++ c ∷ [])) (omega arith) more,
    )

-- A 0 behind the text makes a string of it.
pub Holds-IsString :
    (m : Memory) (p : ℕ) (xs : List ℕ) → Holds m p xs → IsString (store m (p + length xs) 0) p xs
Holds-IsString m p [] h = ground arith
Holds-IsString m p (x ∷ xs) (here, px, bx, rest) = (
  ground arith,
  px,
  bx,
  subst (λ k. IsString (store m k 0) (suc p) xs) (omega arith) (Holds-IsString m (suc p) xs rest),
)

-- The line after one more character.
abbrev pub enter : List ℕ → ℕ → List ℕ
enter xs c = if is_printable c && ltb (length xs) 4095 then xs ++ c ∷ [] else xs

abbrev pub echo : ℕ → List ℕ
echo c = if is_printable c then c ∷ [] else []

-- The state after characters that are echoed as `text` and leave the line `ys`.
pub record Typed (s t : Shell) (text ys : List ℕ) : Type 0 where
  pub line : IsLine t ys
  pub port : t.output_port ≡ s.output_port
  pub prompt : t.prompt_placed ≡ s.prompt_placed
  pub buffer : t.command_buffer ≡ s.command_buffer
  pub wire : t.wire ≡ s.wire ++ sent s.output_port text
