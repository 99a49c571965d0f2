-- ===== src/Serial/Tests.antt =====
-- Examples for the serial shell and console.
use skylight.Base.{ℕ, ◌<◌, ◌≡◌, ◌≢◌, refl, inl, inr, true, [], ◌∷◌, ◌++◌, arith, get_or}
use skylight.Serial.{outb, codes}
use skylight.Serial.Shell.{Shell, crlf, command_names}
use skylight.Serial.Shell.Commands.{Dumps, handle_all, executed}
use skylight.Serial.Shell.Line.{sent}
use skylight.Serial.Shell.Matching.{is_fresh-ne}
use skylight.Serial.Shell.Keeping.{InPage}
use skylight.Serial.Shell.Bounds.{handle_all-bounded}
use skylight.Serial.Shell.Finalize.{Searched, line-executes}
use skylight.Serial.Shell.Answers.{answer, line-unknown}

-- A dump that sends one letter and changes no memory.
abbrev letter_dump : Dumps
letter_dump d port m w = (m, w ++ outb 0x3F8 b'd' ∷ [])

-- A shell on COM1 with its buffer at 4096, its prompt placed.
abbrev started : Shell
started = record {
  prompt_placed = true;
  output_port = 1;
  command_buffer = 4096;
  command_buffer_index = 0;
  memory = λ q. 0;
  wire = [];
}

handle_all-bounded_example :
    InPage (handle_all letter_dump (codes "pci" ++ 13 ∷ b'a' ∷ []) started)
    × ((handle_all letter_dump (codes "pci" ++ 13 ∷ b'a' ∷ []) started).command_buffer ≡ 4096)
    × ((handle_all letter_dump (codes "pci" ++ 13 ∷ b'a' ∷ []) started).memory 100 ≡ 0)
handle_all-bounded_example =
    handle_all-bounded letter_dump 100 (codes "pci" ++ 13 ∷ b'a' ∷ []) started (omega arith)
      (inl (omega arith)) (λ d port m w. refl)

line-executes_example :
    (t : Shell) × Searched started t (9 ∷ codes "pci")
    × (handle_all letter_dump (9 ∷ codes "pci" ++ 13 ∷ []) started ≡ executed letter_dump 8 t)
    × ((handle_all letter_dump (9 ∷ codes "pci" ++ 13 ∷ []) started).command_buffer_index ≡ 0)
line-executes_example =
    line-executes letter_dump 8 (9 ∷ codes "pci") 13 started (omega arith) (inr refl) (omega arith)
      refl (omega arith) refl

other_names : (i : ℕ) → i < 12 → codes "pcj" ≢ get_or command_names i []
other_names i h = is_fresh-ne (codes "pcj") command_names i refl h

line-unknown_example :
    ((handle_all letter_dump (codes "pcj" ++ 10 ∷ []) started).wire
      ≡ sent 1 (answer true (codes "pcj" ++ crlf)))
    × ((handle_all letter_dump (codes "pcj" ++ 10 ∷ []) started).command_buffer_index ≡ 0)
line-unknown_example =
    line-unknown letter_dump (codes "pcj") 10 started (omega arith) (inl refl) (omega arith) refl
      (ground arith) other_names
