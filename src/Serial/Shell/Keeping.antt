-- ===== src/Serial/Shell/Keeping.antt =====
-- The shell keeps its variables, and writes only in the page of its buffer: command_buffer_append,
-- uart_shell_clear_buffer and uart_shell_command_finalize of kernel/src/iodev/uart/shell.c.
use skylight.Base.{
  ℕ, suc, ◌+◌, ◌≤◌, ◌<◌, ◌≡◌, ◌⊎◌, ◌∙◌, refl, ap, Bool, true, false, not, ◌&&◌, ◌||◌, List, [], ◌∷◌,
  ◌==◌, ltb, leb, if◌then◌else◌, arith, get_or,
}
use skylight.Strings.{Memory, store}
use skylight.Serial.{PortEvent}
use skylight.Serial.Shell.{
  Dump, Command, help, ping, dump, clear, Shell, crlf, shell_put, put_all, shell_prompt,
  cancel_prompt, replace_prompt, shell_write, command_handlers, command_names, clear_buffer,
  command_match, buffer_append, help_text, clear_text, page_bytes,
}
use skylight.Serial.Shell.Commands.{
  Dumps, handle, command_execute, executed, unknown, finalize_from, command_finalize,
  handle_character,
}

-- An address outside the page of the buffer.
abbrev pub Outside : Shell → ℕ → Type 0
Outside s q = (q < s.command_buffer) ⊎ (s.command_buffer + page_bytes ≤ q)

-- The step from `s` to `t` leaves the port, the place of the buffer and what stands at `q`, if that
-- is outside the page of the buffer.
pub record Keeps (q : ℕ) (s t : Shell) : Type 0 where
  pub same_port : t.output_port ≡ s.output_port
  pub same_buffer : t.command_buffer ≡ s.command_buffer
  pub same_memory : Outside s q → t.memory q ≡ s.memory q

pub Keeps-refl : (q : ℕ) (s : Shell) → Keeps q s s
Keeps-refl q s = record { same_port = refl; same_buffer = refl; same_memory = λ o. refl }

pub Keeps-trans : {q : ℕ} {s t u : Shell} → Keeps q s t → Keeps q t u → Keeps q s u
Keeps-trans {q} {s} {t} {u} a b = record {
  same_port = b.same_port ∙ a.same_port;
  same_buffer = b.same_buffer ∙ a.same_buffer;
  same_memory = λ o. b.same_memory (rw a.same_buffer o) ∙ a.same_memory o;
}

-- What only writes on the wire or to the prompt.
pub record Quiet (s t : Shell) : Type 0 where
  pub quiet_port : t.output_port ≡ s.output_port
  pub quiet_buffer : t.command_buffer ≡ s.command_buffer
  pub quiet_index : t.command_buffer_index ≡ s.command_buffer_index
  pub quiet_memory : t.memory ≡ s.memory

pub Quiet-Keeps : (q : ℕ) {s t : Shell} → Quiet s t → Keeps q s t
Quiet-Keeps q h = record {
  same_port = h.quiet_port;
  same_buffer = h.quiet_buffer;
  same_memory = λ o. ap (λ m. m q) h.quiet_memory;
}

Quiet-trans : {s t u : Shell} → Quiet s t → Quiet t u → Quiet s u
Quiet-trans a b = record {
  quiet_port = b.quiet_port ∙ a.quiet_port;
  quiet_buffer = b.quiet_buffer ∙ a.quiet_buffer;
  quiet_index = b.quiet_index ∙ a.quiet_index;
  quiet_memory = b.quiet_memory ∙ a.quiet_memory;
}

Quiet-refl : (s : Shell) → Quiet s s
Quiet-refl s = record {
  quiet_port = refl;
  quiet_buffer = refl;
  quiet_index = refl;
  quiet_memory = refl;
}

put-Quiet : (text : List ℕ) (s : Shell) → Quiet s (shell_put text s)
put-Quiet text s = record {
  quiet_port = refl;
  quiet_buffer = refl;
  quiet_index = refl;
  quiet_memory = refl;
}

place-Quiet : (b : Bool) (s : Shell) → Quiet s (record s { prompt_placed = b })
place-Quiet b s = record {
  quiet_port = refl;
  quiet_buffer = refl;
  quiet_index = refl;
  quiet_memory = refl;
}

if-Quiet : {s t u : Shell} (b : Bool) → Quiet s t → Quiet s u → Quiet s (if b then t else u)
if-Quiet true x y = x
if-Quiet false x y = y

if-Keeps :
    {q : ℕ} {s t u : Shell} (b : Bool) → Keeps q s t → Keeps q s u → Keeps q s (if b then t else u)
if-Keeps true x y = x
if-Keeps false x y = y

pub cancel_prompt-Quiet : (s : Shell) → Quiet s (cancel_prompt s)
unfolding cancel_prompt
cancel_prompt-Quiet s =
    if-Quiet (not s.prompt_placed) (Quiet-refl s)
      (Quiet-trans (put-Quiet _ s) (place-Quiet false _))

pub replace_prompt-Quiet : (s : Shell) → Quiet s (replace_prompt s)
unfolding replace_prompt
replace_prompt-Quiet s =
    let s' = if s.prompt_placed then cancel_prompt s else s in
    let canceled : Quiet s s' = if-Quiet s.prompt_placed (cancel_prompt-Quiet s) (Quiet-refl s) in
    Quiet-trans canceled (Quiet-trans (put-Quiet shell_prompt s') (place-Quiet true _))

pub shell_write-Quiet : (text : List ℕ) (s : Shell) → Quiet s (shell_write text s)
unfolding shell_write
shell_write-Quiet text s =
    let s' = cancel_prompt s in
    let canceled : Quiet s s' = cancel_prompt-Quiet s in
    if-Quiet (s'.output_port == 0) canceled (
      Quiet-trans canceled
        (Quiet-trans (put-Quiet text s') (replace_prompt-Quiet (shell_put text s'))))

pub put_all-Quiet : (ts : List (List ℕ)) (s : Shell) → Quiet s (put_all ts s)
unfolding put_all
put_all-Quiet [] s = Quiet-refl s
put_all-Quiet (t ∷ ts) s = Quiet-trans (put-Quiet t s) (put_all-Quiet ts (shell_put t s))

clear_buffer-Keeps : (q : ℕ) (s : Shell) → Keeps q s (clear_buffer s)
unfolding clear_buffer
clear_buffer-Keeps q s = record {
  same_port = refl;
  same_buffer = refl;
  same_memory = λ o. ground (arith, o);
}

-- The index stays where the next write is inside the page.
abbrev pub InPage : Shell → Type 0
InPage s = s.command_buffer_index < page_bytes

pub store-Keeps :
    (q v : ℕ) (s : Shell)
    → InPage s
    → Outside s q
    → store s.memory (s.command_buffer + s.command_buffer_index) v q ≡ s.memory q
store-Keeps q v s h o = ground (arith, o)

module _ (dumps : Dumps) (q : ℕ)
    (apart : (d : Dump) (port : ℕ) (m : Memory) (w : List PortEvent)
      → (dumps d port m w).0 q ≡ m q) where
  handle-Keeps : (c : Command) (s : Shell) → Keeps q s (handle dumps c s)
  unfolding handle
  handle-Keeps help s = Quiet-Keeps q (put_all-Quiet help_text s)
  handle-Keeps ping s = Quiet-Keeps q (put-Quiet _ s)
  handle-Keeps (dump d) s = record {
    same_port = refl;
    same_buffer = refl;
    same_memory = λ o. apart d s.output_port s.memory s.wire;
  }
  handle-Keeps clear s = Quiet-Keeps q (put_all-Quiet clear_text s)

  command_execute-Keeps : (i : ℕ) (s : Shell) → Keeps q s (command_execute dumps i s)
  unfolding command_execute
  command_execute-Keeps i s =
      if-Keeps (leb 12 i) (Keeps-refl q s) (handle-Keeps (get_or command_handlers i help) s)

  executed-Keeps : (i : ℕ) (s : Shell) → Keeps q s (executed dumps i s)
  unfolding executed
  executed-Keeps i s =
      let t = command_execute dumps i s in
      let t' : Shell = record t { prompt_placed = false } in
      let quiet : Keeps q t t' = Quiet-Keeps q (place-Quiet false t) in
      Keeps-trans (command_execute-Keeps i s) (
        Keeps-trans quiet (
          Keeps-trans (Quiet-Keeps q (replace_prompt-Quiet t'))
            (clear_buffer-Keeps q (replace_prompt t'))))

  unknown-Keeps : (s : Shell) → Keeps q s (unknown dumps s)
  unfolding unknown
  unknown-Keeps s = Keeps-trans (Quiet-Keeps q (shell_write-Quiet _ s)) (clear_buffer-Keeps q _)

  finalize_from-Keeps :
      (names : List (List ℕ)) (i : ℕ) (s : Shell) → Keeps q s (finalize_from dumps names i s)
  unfolding finalize_from
  finalize_from-Keeps [] i s = unknown-Keeps s
  finalize_from-Keeps (name ∷ names) i s =
      if-Keeps (command_match s.memory s.command_buffer name) (executed-Keeps i s)
        (finalize_from-Keeps names (suc i) s)

  command_finalize-Keeps : (s : Shell) → InPage s → Keeps q s (command_finalize dumps s)
  unfolding command_finalize
  command_finalize-Keeps s h =
      let s' : Shell = record s {
        memory = store s.memory (s.command_buffer + s.command_buffer_index) 0;
      } in
      let stored : Keeps q s s' = record {
        same_port = refl;
        same_buffer = refl;
        same_memory = λ o. store-Keeps q 0 s h o;
      } in
      if-Keeps (s.command_buffer_index == 0)
        (Quiet-Keeps q (Quiet-trans (place-Quiet false s) (replace_prompt-Quiet _)))
        (Keeps-trans stored (finalize_from-Keeps command_names 0 s'))

  buffer_append-Keeps : (c : ℕ) (s : Shell) → InPage s → Keeps q s (buffer_append c s)
  unfolding buffer_append
  buffer_append-Keeps c s h =
      let s' : Shell = record s {
        memory = store s.memory (s.command_buffer + s.command_buffer_index) c;
        command_buffer_index = suc s.command_buffer_index;
      } in
      let stored : Keeps q s s' = record {
        same_port = refl;
        same_buffer = refl;
        same_memory = λ o. store-Keeps q c s h o;
      } in
      if-Keeps (leb s.command_buffer_index 4094) stored (Keeps-refl q s)

  pub handle_character-Keeps :
      (c : ℕ) (s : Shell) → InPage s → Keeps q s (handle_character dumps c s)
  unfolding handle_character
  handle_character-Keeps c s h =
      let echo = (if c == 13 then 10 else c) ∷ [] in
      if-Keeps (c == 10 || c == 13)
        (Keeps-trans (Quiet-Keeps q (put-Quiet crlf s))
          (command_finalize-Keeps (shell_put crlf s) h))
        (if-Keeps ((ltb c 0x20 || ltb 0x7E c) && not (c == 13)) (Keeps-refl q s) (
          Keeps-trans (Quiet-Keeps q (put-Quiet echo s))
            (buffer_append-Keeps c (shell_put echo s) h)))
