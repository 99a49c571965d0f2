-- ===== src/Prism/Listeners.antt =====
-- The rest of apps/frames/prism/src/kbd/kbd.c: the page of key codes shared with the kernel, the
-- table of listeners and the shift, caps lock and num lock states. A listener is the address of a
-- function; its calls are logged, and what it does is not modelled. `none` is an access behind the
-- end of the table's page.
pub mod Table
pub mod Loops
pub mod Removal
pub mod Update
pub mod Starting
mod Tests
use skylight.Base.{
  ℕ, zero, suc, ◌+◌, ◌-◌, ◌*◌, ◌/◌, ◌%◌, ◌^◌, ◌<◌, Bool, true, false, not, ◌&&◌, ◌||◌, List, [],
  ◌∷◌, ◌++◌, Option, none, some, ◌==◌, leb, ltb, if◌then◌else◌, get_or, set, replicate, length,
  sub64, add64,
}
use skylight.Keyboard.Codes.{code, released_code, capslock, numlock, left_shift, right_shift}
use skylight.Keyboard.KeyBuffer.{page_size, read_size, write_size}

-- `0x1000 / sizeof(kbd_listener_t)`
abbrev pub slots : ℕ
slots = 512

pub data Call : Type 0 where
  kb_man : (take : Bool) → Call
  pmap : Call
  listener : (address keycode : ℕ) → Call

-- `_kb_shift`, `_kb_caps` and `_kb_nums`.
pub record Locks : Type 0 where
  pub shift : Bool
  pub caps : Bool
  pub nums : Bool

pub record Keyboard : Type 0 where
  pub internal_buffer : ℕ
  pub internal_buffer_size : ℕ
  pub page : List ℕ
  pub started : Bool
  pub listeners : ℕ
  pub table : List ℕ
  pub listeners_count : ℕ
  pub locks : Locks
  pub calls : List Call

-- The bytes of the shared page come with it.
abbrev pub take_page : (buffer : ℕ) (bytes : List ℕ) → Keyboard → Keyboard
take_page buffer bytes s = record s {
  internal_buffer = buffer;
  page = bytes;
  calls = s.calls ++ kb_man true ∷ [];
}

-- `kbd_init`, where `kb_man` would return `buffer` with the bytes `bytes`, and `pmap` would return
-- `mapped`.
unfoldable pub kbd_init : (buffer : ℕ) (bytes : List ℕ) (mapped : ℕ) → Keyboard → Bool × Keyboard
kbd_init buffer bytes mapped s =
    if s.started
    then (true, s)
    else (let held = take_page buffer bytes s in
        if buffer == 0
        then (false, held)
        else (let found = record held { internal_buffer_size = sub64 (add64 buffer page_size) 2 } in
            if not (read_size bytes == 0)
            then (false, found)
            else if not (found.listeners == 0)
            then (false, found)
            else if mapped == 0
            then (false, record found { listeners = 0; calls = found.calls ++ pmap ∷ [] })
            else (
              true,
              record found {
                listeners = mapped;
                listeners_count = 0;
                table = replicate slots 0;
                started = true;
                calls = found.calls ++ pmap ∷ [];
              },
            )))

unfoldable pub kbd_kill : Keyboard → Keyboard
kbd_kill s = record s {
  started = false;
  internal_buffer = 0;
  internal_buffer_size = 0;
  calls = s.calls ++ kb_man false ∷ [];
}

unfoldable pub kbd_add_listener : (address : ℕ) → Keyboard → Bool × Keyboard
kbd_add_listener address s =
    if not s.started then (false, s) else if leb slots s.listeners_count then (false, s) else (
      true,
      record s {
        table = set s.table s.listeners_count address;
        listeners_count = s.listeners_count + 1;
      },
    )

-- The first loop of `kbd_remove_listener`, from the slot `i` on: 0 where no slot matches.
unfoldable pub find_listener : (address rounds i : ℕ) → List ℕ → ℕ
find_listener address zero i table = 0
find_listener address (suc rounds) i table =
    let rest = find_listener address rounds (suc i) table in
    if get_or table i 0 == address then i else rest

abbrev pub read_slot : List ℕ → ℕ → Option ℕ
read_slot [] i = none
read_slot (x ∷ xs) zero = some x
read_slot (x ∷ xs) (suc i) = read_slot xs i

-- Its second loop.
unfoldable pub move_down : (rounds i : ℕ) → List ℕ → Option (List ℕ)
move_down zero i table = some table
move_down (suc rounds) i table = elim (read_slot table (suc i)) [
  | none ↦ none
  | some v ↦ move_down rounds (suc i) (set table i v)
]

-- The last write of `kbd_remove_listener`, at the old number of listeners.
abbrev pub clear_last : Keyboard → List ℕ → Option Keyboard
clear_last s table =
    if ltb s.listeners_count slots
    then some (record s {
      table = set table s.listeners_count 0;
      listeners_count = sub64 s.listeners_count 1;
    })
    else none

unfoldable pub kbd_remove_listener : (address : ℕ) → Keyboard → Option Keyboard
kbd_remove_listener address s =
    if not s.started
    then some s
    else (let target = find_listener address s.listeners_count 0 s.table in
        if target == 0
        then some s
        else elim (move_down (s.listeners_count - target) target (set s.table target 0)) [
          | none ↦ none
          | some table ↦ clear_last s table
        ])

-- The states that a key code switches.
abbrev pub switch : ℕ → Locks → Locks
switch keycode l =
    if keycode == code capslock
    then record l { caps = not l.caps }
    else if keycode == code numlock
    then record l { nums = not l.nums }
    else if (keycode == code left_shift) || (keycode == code right_shift)
    then record l { shift = true }
    else if (keycode == released_code left_shift) || (keycode == released_code right_shift)
    then record l { shift = false }
    else l

-- The calls of the listeners in the slots from `i` on.
unfoldable pub call_listeners : (keycode rounds i : ℕ) → List ℕ → List Call
call_listeners keycode zero i table = []
call_listeners keycode (suc rounds) i table =
    let rest = call_listeners keycode rounds (suc i) table in
    if get_or table i 0 == 0 then rest else listener (get_or table i 0) keycode ∷ rest

-- The loop of `kbd_update` over the key codes from `i` on.
unfoldable pub update_keys : (rounds i : ℕ) → Keyboard → Keyboard
update_keys zero i s = s
update_keys (suc rounds) i s = update_keys rounds (suc i) (record s {
  locks = switch (get_or s.page i 0) s.locks;
  calls = s.calls ++ call_listeners (get_or s.page i 0) s.listeners_count 0 s.table;
})

-- `memset` of the page's first bytes to 0.
unfoldable pub clear_bytes : ℕ → List ℕ → List ℕ
clear_bytes zero page = page
clear_bytes (suc n) [] = []
clear_bytes (suc n) (x ∷ page) = 0 ∷ clear_bytes n page

unfoldable pub kbd_update : Keyboard → Keyboard
kbd_update s =
    if not s.started
    then s
    else (let buffered_keys = read_size s.page in
        if buffered_keys == 0
        then s
        else (let t = update_keys buffered_keys 0 s in
            record t { page = write_size (clear_bytes ((buffered_keys + 1) % 2 ^ 16) t.page) 0 }))
