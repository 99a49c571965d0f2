-- ===== src/Serial/Shell/Bounds.antt =====
-- The index of the buffer of kernel/src/iodev/uart/shell.c stays inside the page, whatever arrives.
use skylight.Base.{
  ℕ, suc, ◌+◌, ◌≡◌, refl, Bool, true, false, not, ◌&&◌, ◌||◌, List, [], ◌∷◌, ◌==◌, ltb,
  if◌then◌else◌, arith,
}
use skylight.Strings.{store}
use skylight.Serial.{PortEvent}
use skylight.Strings.{Memory}
use skylight.Serial.Shell.{
  Dump, Shell, crlf, shell_put, clear_buffer, command_names, command_match, buffer_append,
}
use skylight.Serial.Shell.Commands.{
  Dumps, executed, unknown, finalize_from, command_finalize, handle_character, handle_all,
}
use skylight.Serial.Shell.Keeping.{
  Outside, Keeps, Keeps-refl, Keeps-trans, InPage, replace_prompt-Quiet, handle_character-Keeps,
}

if-InPage : (s t : Shell) (b : Bool) → InPage s → InPage t → InPage (if b then s else t)
if-InPage s t true x y = x
if-InPage s t false x y = y

buffer_append-InPage : (c : ℕ) (s : Shell) → InPage s → InPage (buffer_append c s)
unfolding buffer_append
buffer_append-InPage c s h = ground arith

module _ (dumps : Dumps) where
  pub finalize_from-empty :
      (names : List (List ℕ)) (i : ℕ) (s : Shell)
      → (finalize_from dumps names i s).command_buffer_index ≡ 0
  unfolding finalize_from executed unknown clear_buffer
  finalize_from-empty [] i s = refl
  finalize_from-empty (name ∷ names) i s =
      elim (command_match s.memory s.command_buffer name)
        as (λ b.
          (if b
            then executed dumps i s
            else finalize_from dumps names (suc i) s).command_buffer_index
          ≡ 0) [ true ↦ refl | false ↦ finalize_from-empty names (suc i) s ]

  command_finalize-InPage : (s : Shell) → InPage s → InPage (command_finalize dumps s)
  unfolding command_finalize
  command_finalize-InPage s h =
      let s' : Shell = record s { prompt_placed = false } in
      let same = (replace_prompt-Quiet s').quiet_index in
      if-InPage _ _ (s.command_buffer_index == 0) (omega arith) (
        omega (
          arith,
          finalize_from-empty command_names 0
              (record s { memory = store s.memory (s.command_buffer + s.command_buffer_index) 0 }),
        ))

  pub handle_character-InPage : (c : ℕ) (s : Shell) → InPage s → InPage (handle_character dumps c s)
  unfolding handle_character
  handle_character-InPage c s h =
      if-InPage _ _ (c == 10 || c == 13) (command_finalize-InPage (shell_put crlf s) h) (
        if-InPage _ _ ((ltb c 0x20 || ltb 0x7E c) && not (c == 13)) h
          (buffer_append-InPage c (shell_put _ s) h))

  handle_all-InPage : (cs : List ℕ) (s : Shell) → InPage s → InPage (handle_all dumps cs s)
  unfolding handle_all
  handle_all-InPage [] s h = h
  handle_all-InPage (c ∷ cs) s h =
      handle_all-InPage cs (handle_character dumps c s) (handle_character-InPage c s h)

  handle_all-Keeps :
      (q : ℕ)
      → ((d : Dump) (port : ℕ) (m : Memory) (w : List PortEvent) → (dumps d port m w).0 q ≡ m q)
      → (cs : List ℕ) (s : Shell) → InPage s
      → Keeps q s (handle_all dumps cs s)
  unfolding handle_all
  handle_all-Keeps q apart [] s h = Keeps-refl q s
  handle_all-Keeps q apart (c ∷ cs) s h =
      Keeps-trans (handle_character-Keeps dumps q apart c s h)
        (handle_all-Keeps q apart cs (handle_character dumps c s) (handle_character-InPage c s h))

-- Whatever characters arrive at a shell whose index is below 4096, the index stays below 4096 and
-- the buffer stays where it is; and an address outside the page of the buffer that no dump changes
-- keeps its byte.
pub handle_all-bounded :
    (dumps : Dumps) (q : ℕ) (cs : List ℕ) (s : Shell)
    → InPage s
    → Outside s q
    → ((d : Dump) (port : ℕ) (m : Memory) (w : List PortEvent) → (dumps d port m w).0 q ≡ m q)
    → InPage (handle_all dumps cs s)
      × ((handle_all dumps cs s).command_buffer ≡ s.command_buffer)
      × ((handle_all dumps cs s).memory q ≡ s.memory q)
handle_all-bounded dumps q cs s h outside apart =
    let kept = handle_all-Keeps dumps q apart cs s h in
    (handle_all-InPage dumps cs s h, kept.same_buffer, kept.same_memory outside)
