-- ===== src/Serial/Shell/Commands.antt =====
-- The commands, the end of a line and the handler of a character of
-- kernel/src/iodev/uart/shell.c, over the dumps that the commands call.
use skylight.Base.{
  ℕ, suc, ◌+◌, false, not, ◌&&◌, ◌||◌, List, [], ◌∷◌, ◌++◌, ◌==◌, ltb, leb, if◌then◌else◌, get_or,
}
use skylight.Strings.{Memory, store}
use skylight.Serial.{PortEvent, codes}
use skylight.Serial.Shell.{
  Dump, Command, help, ping, dump, clear, Shell, crlf, shell_put, put_all, replace_prompt,
  shell_write, command_handlers, command_names, clear_buffer, command_match, buffer_append,
  help_text, clear_text, memset, page_bytes,
}

-- A dump, on the port of the shell, changes memory and wire and none of the shell's variables.
abbrev pub Dumps : Type 0
Dumps = Dump → (output_port : ℕ) → Memory → List PortEvent → Memory × List PortEvent

module _ (dumps : Dumps) where
  unfoldable pub run_dump : Dump → Shell → Shell
  run_dump d s =
      let (m, w) = dumps d s.output_port s.memory s.wire in record s { memory = m; wire = w }

  unfoldable pub handle : Command → Shell → Shell
  unfolding run_dump put_all
  handle help s = put_all help_text s
  handle ping s = shell_put (codes "pong" ++ crlf) s
  handle (dump d) s = run_dump d s
  handle clear s = put_all clear_text s

  unfoldable pub command_execute : (command_no : ℕ) → Shell → Shell
  unfolding handle
  command_execute command_no s =
      if leb 12 command_no then s else handle (get_or command_handlers command_no help) s

  -- The end of a round of the search that has found its command.
  unfoldable pub executed : (command_no : ℕ) → Shell → Shell
  unfolding command_execute replace_prompt clear_buffer
  executed i s =
      clear_buffer (replace_prompt (record (command_execute i s) { prompt_placed = false }))

  unfoldable pub unknown : Shell → Shell
  unfolding shell_write clear_buffer
  unknown s = clear_buffer (shell_write (codes "Unknown command..." ++ crlf) s)

  -- The search from the command with number `i`, with the names from there on.
  unfoldable pub finalize_from : List (List ℕ) → (i : ℕ) → Shell → Shell
  finalize_from [] i s = unknown s
  finalize_from (name ∷ names) i s =
      let rest = finalize_from names (suc i) s in
      if command_match s.memory s.command_buffer name then executed i s else rest

  unfoldable pub command_finalize : Shell → Shell
  unfolding finalize_from replace_prompt
  command_finalize s =
      if s.command_buffer_index == 0
      then replace_prompt (record s { prompt_placed = false })
      else finalize_from command_names 0
          (record s { memory = store s.memory (s.command_buffer + s.command_buffer_index) 0 })

  unfoldable pub handle_character : ℕ → Shell → Shell
  unfolding command_finalize buffer_append
  handle_character c s =
      if c == 10 || c == 13
      then command_finalize (shell_put crlf s)
      else if (ltb c 0x20 || ltb 0x7E c) && not (c == 13)
      then s
      else buffer_append c (shell_put ((if c == 13 then 10 else c) ∷ []) s)

  -- Characters in the order in which they arrive.
  unfoldable pub handle_all : List ℕ → Shell → Shell
  handle_all [] s = s
  handle_all (c ∷ cs) s = handle_all cs (handle_character c s)

-- The start of the shell, with the page that the page allocator gives.
unfoldable pub shell_start : (page out_port : ℕ) → Shell → Shell
unfolding replace_prompt
shell_start page out_port s = replace_prompt (record s {
  output_port = out_port;
  command_buffer = page;
  command_buffer_index = 0;
  memory = memset s.memory page 0 page_bytes;
  prompt_placed = false;
})
