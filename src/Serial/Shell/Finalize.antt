-- ===== src/Serial/Shell/Finalize.antt =====
-- A whole line of kernel/src/iodev/uart/shell.c: typed characters, the end of the line, and the
-- answer to it.
use skylight.Base.{
  ℕ, ◌+◌, ◌<◌, ◌≡◌, ◌≢◌, ◌⊎◌, ◌∙◌, refl, sym, ap, true, false, ◌||◌, List, [], ◌∷◌, ◌++◌, ◌==◌,
  if_true, if_false, arith, length, get_or, take,
}
use mathlib.Core.List.{append_assoc, map-append}
use skylight.Strings.{store}
use skylight.Strings.Bytes.{IsString}
use skylight.Serial.Shell.{Shell, crlf, shell_put, command_names}
use skylight.Serial.Shell.Commands.{
  Dumps, executed, finalize_from, command_finalize, handle_character, handle_all,
}
use skylight.Serial.Shell.Line.{
  Nonzero, printables, OnOneLine, IsLine, sent, internal_write_lem, Holds-IsString,
}
use skylight.Serial.Shell.Typing.{handle_all-Typed}
use skylight.Serial.Shell.Bounds.{finalize_from-empty}
use skylight.Serial.{internal_write}
use skylight.Serial.Shell.Matching.{
  finalize_from-executed, command_names-ne, command_names-ne_nil, command_names-AllNonzero,
}

-- The line that the characters `cs` leave in an empty buffer.
abbrev pub line_of : List ℕ → List ℕ
line_of cs = take 4095 (printables cs)

-- The state `t` in which the shell looks for a command, after `cs` and the end of the line in `s`.
pub record Searched (s t : Shell) (cs : List ℕ) : Type 0 where
  pub text : IsString t.memory t.command_buffer (line_of cs)
  pub port : t.output_port ≡ s.output_port
  pub prompt : t.prompt_placed ≡ s.prompt_placed
  pub wire : t.wire ≡ s.wire ++ sent s.output_port (printables cs ++ crlf)

abbrev pub EndsLine : ℕ → Type 0
EndsLine c = (c ≡ 10) ⊎ (c ≡ 13)

-- What is written behind `before` stands behind it on the wire.
pub put_wire :
    (text : List ℕ) (s t : Shell) (before : List ℕ)
    → Nonzero text
    → s.output_port ≢ 0
    → t.output_port ≡ s.output_port
    → t.wire ≡ s.wire ++ sent s.output_port before
    → (shell_put text t).wire ≡ s.wire ++ sent s.output_port (before ++ text)
put_wire text s t before n open_port port wire =
    ap (λ p. internal_write text p t.wire) port
    ∙ ap (λ w. internal_write text s.output_port w) wire
    ∙ internal_write_lem text s.output_port _ open_port n
    ∙ append_assoc s.wire (sent s.output_port before) (sent s.output_port text)
    ∙ ap (λ w. s.wire ++ w) (sym (map-append _ before text))

module _ (dumps : Dumps) where
  handle_all-append :
      (cs : List ℕ) (c : ℕ) (s : Shell)
      → handle_all dumps (cs ++ c ∷ []) s ≡ handle_character dumps c (handle_all dumps cs s)
  unfolding handle_all
  handle_all-append [] c s = refl
  handle_all-append (d ∷ cs) c s = handle_all-append cs c (handle_character dumps d s)

  finalize-searches :
      (s : Shell) (xs : List ℕ)
      → IsLine s xs
      → xs ≢ []
      → command_finalize dumps s
        ≡ finalize_from dumps command_names 0
            (record s { memory = store s.memory (s.command_buffer + length xs) 0 })
  unfolding command_finalize
  finalize-searches s [] l some_text = absurd (some_text refl)
  finalize-searches s (x ∷ xs) l some_text =
      let filled : (s.command_buffer_index == 0) ≡ false = ground (arith, l.index) in
      if_false _ _ _ filled
      ∙ ap
          (λ k.
            finalize_from dumps command_names 0
              (record s { memory = store s.memory (s.command_buffer + k) 0 }))
          l.index

  character-searches :
      (end : ℕ) (s : Shell) (xs : List ℕ)
      → EndsLine end
      → IsLine s xs
      → xs ≢ []
      → handle_character dumps end s
        ≡ finalize_from dumps command_names 0
            (record (shell_put crlf s) { memory = store s.memory (s.command_buffer + length xs) 0 })
  unfolding handle_character
  character-searches end s xs e l some_text =
      let ends : (end == 10 || end == 13) ≡ true = ground (arith, e) in
      if_true _ _ _ ends
      ∙ finalize-searches (shell_put crlf s) xs (record { index = l.index; bytes = l.bytes })
          some_text

  pub line-Searched :
      (cs : List ℕ) (end : ℕ) (s : Shell)
      → OnOneLine cs
      → EndsLine end
      → s.output_port ≢ 0
      → s.command_buffer_index ≡ 0
      → line_of cs ≢ []
      → (t : Shell) × Searched s t cs
        × (handle_all dumps (cs ++ end ∷ []) s ≡ finalize_from dumps command_names 0 t)
  line-Searched cs end s h e open_port empty some_text =
      let typed =
        handle_all-Typed dumps cs s [] h open_port (omega arith)
          (record { index = empty; bytes = tt }) in
      let u = handle_all dumps cs s in
      let t : Shell = record (shell_put crlf u) {
        memory = store u.memory (u.command_buffer + length (line_of cs)) 0;
      } in
      let found : Searched s t cs = record {
        text = Holds-IsString u.memory u.command_buffer (line_of cs) typed.line.bytes;
        port = typed.port;
        prompt = typed.prompt;
        wire = put_wire crlf s u (printables cs) (omega arith) open_port typed.port typed.wire;
      } in
      (
        t,
        found,
        handle_all-append cs end s ∙ character-searches end u (line_of cs) e typed.line some_text,
      )

-- On a shell with a port and an empty buffer, characters none of which ends a line, then one that
-- does: if the printable ones, at most 4095 of them, are the name of the command `i`, its handler
-- is called, in a state `t` whose memory holds that text as a string in the buffer, with the same
-- port and prompt and with the characters and the line's end on the wire; the buffer is then
-- empty.
pub line-executes :
    (dumps : Dumps) (i : ℕ) (cs : List ℕ) (end : ℕ) (s : Shell)
    → OnOneLine cs
    → EndsLine end
    → s.output_port ≢ 0
    → s.command_buffer_index ≡ 0
    → i < 12
    → line_of cs ≡ get_or command_names i []
    → (t : Shell) × Searched s t cs
      × (handle_all dumps (cs ++ end ∷ []) s ≡ executed dumps i t)
      × ((handle_all dumps (cs ++ end ∷ []) s).command_buffer_index ≡ 0)
line-executes dumps i cs end s h e open_port empty less named =
    let (t, found, run) =
      line-Searched dumps cs end s h e open_port empty
        (λ none_typed. command_names-ne_nil i less (sym named ∙ none_typed)) in
    let answer =
      finalize_from-executed dumps t (line_of cs) found.text command_names 0 i
        command_names-AllNonzero less (sym named)
        (λ l before eq. command_names-ne l i before less (eq ∙ named)) in
    (
      t,
      found,
      run ∙ answer ∙ ap (λ k. executed dumps k t) (omega arith),
      ap (λ u. u.command_buffer_index) run ∙ finalize_from-empty dumps command_names 0 t,
    )
