-- ===== src/Serial/Shell.antt =====
-- The debug shell of kernel/src/iodev/uart/shell.c: its state, the prompt, the buffer, the table
-- of commands and the handler of a character. The dumps are functions of other files that the
-- shell calls; they are a parameter, which takes and gives the memory and the wire.
pub mod Commands
pub mod Keeping
pub mod Bounds
pub mod Line
pub mod Typing
pub mod Matching
pub mod Finalize
pub mod Answers
use skylight.Base.{
  ℕ, zero, suc, ◌+◌, Bool, true, false, not, ◌&&◌, ◌||◌, List, [], ◌∷◌, ◌++◌, ◌==◌, ltb, leb,
  if◌then◌else◌, get_or, replicate,
}
use skylight.Strings.{Memory, store}
use skylight.Serial.{PortEvent, codes, internal_write}

-- The effect of `memset`.
abbrev pub memset : Memory → (p v n : ℕ) → Memory
memset m p v n q = if leb p q && ltb q (p + n) then v else m q

pub data Dump : Type 0 where
  idt : Dump
  gdt : Dump
  tss : Dump
  proc : Dump
  pmm : Dump
  uart : Dump
  pci : Dump
  disk_info : Dump
  disk_dump : Dump

pub data Command : Type 0 where
  help : Command
  ping : Command
  dump : Dump → Command
  clear : Command

pub record Shell : Type 0 where
  pub prompt_placed : Bool
  pub output_port : ℕ
  pub command_buffer : ℕ
  pub command_buffer_index : ℕ
  pub memory : Memory
  pub wire : List PortEvent

abbrev pub page_bytes : ℕ
page_bytes = 4096

abbrev pub uartsh_buffer_max : ℕ
uartsh_buffer_max = 4094

abbrev pub crlf : List ℕ
crlf = 13 ∷ 10 ∷ []

abbrev pub shell_prompt : List ℕ
shell_prompt = codes "glass #> "

-- What the shell writes with `__uart_internal_write` on its own port.
abbrev pub shell_put : List ℕ → Shell → Shell
shell_put text s = record s { wire = internal_write text s.output_port s.wire }

unfoldable pub cancel_prompt : Shell → Shell
cancel_prompt s =
    if not s.prompt_placed
    then s
    else record (shell_put (replicate 9 8) s) { prompt_placed = false }

unfoldable pub replace_prompt : Shell → Shell
unfolding cancel_prompt
replace_prompt s =
    let s' = if s.prompt_placed then cancel_prompt s else s in
    record (shell_put shell_prompt s') { prompt_placed = true }

unfoldable pub shell_write : List ℕ → Shell → Shell
unfolding cancel_prompt replace_prompt
shell_write text s =
    let s' = cancel_prompt s in
    if s'.output_port == 0 then s' else replace_prompt (shell_put text s')

abbrev pub command_handlers : List Command
command_handlers =
    help
    ∷ ping
    ∷ dump idt
    ∷ dump gdt
    ∷ dump tss
    ∷ dump proc
    ∷ dump pmm
    ∷ dump uart
    ∷ dump pci
    ∷ clear
    ∷ dump disk_info
    ∷ dump disk_dump
    ∷ []

abbrev pub command_names : List (List ℕ)
command_names =
    codes "help"
    ∷ codes "ping"
    ∷ codes "idt"
    ∷ codes "gdt"
    ∷ codes "tss"
    ∷ codes "lsp"
    ∷ codes "mem"
    ∷ codes "uart"
    ∷ codes "pci"
    ∷ codes "clear"
    ∷ codes "lsdisks"
    ∷ codes "disktest"
    ∷ []

unfoldable pub clear_buffer : Shell → Shell
clear_buffer s = record s {
  memory = memset s.memory s.command_buffer 0 page_bytes;
  command_buffer_index = 0;
}

-- The string at `p` in memory against a literal, whose end reads as 0.
unfoldable pub command_match : Memory → (p : ℕ) → List ℕ → Bool
command_match m p [] = m p == 0
command_match m p (c ∷ cs) =
    let rest = command_match m (suc p) cs in
    if m p == 0 && c == 0 then true else if not (m p == c) then false else rest

unfoldable pub buffer_append : ℕ → Shell → Shell
buffer_append c s =
    if leb s.command_buffer_index uartsh_buffer_max
    then record s {
      memory = store s.memory (s.command_buffer + s.command_buffer_index) c;
      command_buffer_index = suc s.command_buffer_index;
    }
    else s

-- The texts that `help` and `clear` write, a piece for each call.
unfoldable pub help_text : List (List ℕ)
help_text =
    (codes
        "You are using the \"glass\" kernel debug shell through the serial port. Available commands:"
      ++ (crlf ++ crlf))
    ∷ (codes "help: print this message" ++ crlf)
    ∷ (codes "ping: print \"pong\"" ++ crlf)
    ∷ (codes "idt: print dump of idt structure" ++ crlf)
    ∷ (codes "gdt: print dump of gdt structure" ++ crlf)
    ∷ (codes "tss: print dump of tss structure" ++ crlf)
    ∷ (codes "lsp: print dump of current processes" ++ crlf)
    ∷ (codes "mem: print info on memory state" ++ crlf)
    ∷ (codes "uart: print info on uart (serial) state" ++ crlf)
    ∷ (codes "pci: print list of pci functions" ++ crlf)
    ∷ (codes "clear: attempt to clear the screen (compatibility varies)" ++ crlf)
    ∷ (codes "lsdisks: list available AHCI disks" ++ crlf)
    ∷ (codes "disktest: test AHCI disk read operations" ++ crlf)
    ∷ crlf
    ∷ []

unfoldable pub clear_text : List (List ℕ)
clear_text =
    (codes
        "Viewing this message indicates failure: attempting to clear screen with escape sequences \\033[2J and \\033[H..."
      ++ crlf)
    ∷ (codes "NOTICE: Some monitors may simply scroll the text out of view, this indicates success."
        ++ crlf)
    ∷ (27 ∷ (codes "[2J" ++ (crlf ++ (27 ∷ codes "[H"))))
    ∷ []

unfoldable pub put_all : List (List ℕ) → Shell → Shell
put_all [] s = s
put_all (t ∷ ts) s = put_all ts (shell_put t s)
