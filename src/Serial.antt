-- ===== src/Serial.antt =====
-- The serial ports of kernel/src/iodev/uart: the table of port addresses of uartsh.c, and the write
-- of a string of shell.c, which the console and the shell share.
pub mod Shell
mod Tests
use Prim.Native.Char.{code}
use Prim.Native.String.{String}
use skylight.Base.{ℕ, ◌+◌, List, [], ◌∷◌, ◌++◌, ◌==◌, if◌then◌else◌, get_or}

-- What the processor does on its ports, in order.
pub data PortEvent : Type 0 where
  outb : (port value : ℕ) → PortEvent
  inb : (port : ℕ) → PortEvent

abbrev pub codes : String → List ℕ
codes String.[] = []
codes (String.◌∷◌ c s) = code c ∷ codes s

abbrev pub com_port_addrs : List ℕ
com_port_addrs = 0 ∷ 0x3F8 ∷ 0x2F8 ∷ 0x3E8 ∷ 0x2E8 ∷ 0x5F8 ∷ 0x4F8 ∷ 0x5E8 ∷ 0x4E8 ∷ []

-- The address of a register of a port. The callers give ports up to 8.
abbrev pub com_register : (port register : ℕ) → ℕ
com_register port register = get_or com_port_addrs port 0 + register

-- A string is the list of its bytes; a byte 0 ends it before the end of the list.
unfoldable pub send : List ℕ → (port : ℕ) → List PortEvent → List PortEvent
send [] port wire = wire
send (c ∷ s) port wire =
    let rest = send s port (wire ++ outb (com_register port 0) c ∷ []) in
    if c == 0 then wire else rest

unfoldable pub internal_write : List ℕ → (port : ℕ) → List PortEvent → List PortEvent
internal_write s port wire = if port == 0 then wire else send s port wire
