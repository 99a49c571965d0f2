-- ===== src/Prism/Listeners/Update.antt =====
-- `kbd_update` of apps/frames/prism/src/kbd/kbd.c, and the page of key codes that the kernel's
-- kernel/src/proc/calls/handlers/kb_man.c fills for it.
use skylight.Base.{
  ℕ, zero, suc, ◌+◌, ◌-◌, ◌%◌, ◌^◌, ◌≤◌, ◌<◌, ◌≡◌, ◌∙◌, refl, ap, sym, List, [], ◌∷◌, ◌++◌, ◌==◌,
  if◌then◌else◌, get_or, replicate, take, length, arith, ==_of_ne, length-take_le, take-all,
  get_or-take,
}
use native.Mathlib.Decide.{dec_lt}
use mathlib.Core.List.{append-nil, append_assoc}
use skylight.Keyboard.KeyBuffer.{
  KeyBuffer, page_size, size_offset, read_size, write_size, save_keys,
}
use skylight.Keyboard.KeyBuffer.Saving.{
  IsHeld, contents, contents-save_keys, save_keys-IsHeld, read-write_size,
}
use skylight.Prism.Listeners.{
  Keyboard, Locks, Call, listener, switch, call_listeners, update_keys, clear_bytes, kbd_update,
}
use skylight.Prism.Listeners.Table.{Represents, get_or-append}

-- The calls for one key code, to each listener in the order of their slots, and for several.
abbrev pub calls_of : ℕ → List ℕ → List Call
calls_of k [] = []
calls_of k (x ∷ xs) = let rest = calls_of k xs in if x == 0 then rest else listener x k ∷ rest

abbrev pub deliver : (keys registered : List ℕ) → List Call
deliver [] registered = []
deliver (k ∷ keys) registered = calls_of k registered ++ deliver keys registered

abbrev pub switches : List ℕ → Locks → Locks
switches [] l = l
switches (k ∷ keys) l = switches keys (switch k l)

call_listeners-calls_of :
    (k i : ℕ) (xs table : List ℕ)
    → ((j : ℕ) → j < length xs → get_or table (i + j) 0 ≡ get_or xs j 0)
    → call_listeners k (length xs) i table ≡ calls_of k xs
unfolding call_listeners
call_listeners-calls_of k i [] table same = refl
call_listeners-calls_of k i (x ∷ xs) table same =
    let here : get_or table i 0 ≡ x =
      ap (λ n. get_or table n 0) (omega arith) ∙ same 0 (omega arith) in
    let rest =
      call_listeners-calls_of k (suc i) xs table
        (λ j h. ap (λ n. get_or table n 0) (omega arith) ∙ same (suc j) (omega arith)) in
    rw (here, rest)

module _ (registered : List ℕ) where
  update_keys-deliver :
      (keys : List ℕ) (i : ℕ) (s : Keyboard)
      → ((k : ℕ) → call_listeners k s.listeners_count 0 s.table ≡ calls_of k registered)
      → ((j : ℕ) → j < length keys → get_or s.page (i + j) 0 ≡ get_or keys j 0)
      → update_keys (length keys) i s
        ≡ record s { locks = switches keys s.locks; calls = s.calls ++ deliver keys registered }
  unfolding update_keys
  update_keys-deliver [] i s called same =
      ap (λ c. record s { calls = c }) (sym (append-nil s.calls))
  update_keys-deliver (k ∷ keys) i s called same =
      let here : get_or s.page i 0 ≡ k =
        ap (λ n. get_or s.page n 0) (omega arith) ∙ same 0 (omega arith) in
      let after : ℕ → List Call → Keyboard =
        λ n c. record s { locks = switch n s.locks; calls = s.calls ++ c } in
      let rest =
        update_keys-deliver keys (suc i) (after k (calls_of k registered)) called
          (λ j h. ap (λ n. get_or s.page n 0) (omega arith) ∙ same (suc j) (omega arith)) in
      ap
        (λ n.
          update_keys (length keys) (suc i)
            (after n (call_listeners n s.listeners_count 0 s.table)))
        here
      ∙ ap (λ c. update_keys (length keys) (suc i) (after k c)) (called k)
      ∙ rest
      ∙ ap (λ c. record s { locks = switches keys (switch k s.locks); calls = c })
          (append_assoc s.calls (calls_of k registered) (deliver keys registered))

length-clear_bytes : (n : ℕ) (page : List ℕ) → length (clear_bytes n page) ≡ length page
unfolding clear_bytes
length-clear_bytes zero page = refl
length-clear_bytes (suc n) [] = refl
length-clear_bytes (suc n) (x ∷ page) = ap suc (length-clear_bytes n page)

module _ (s : Keyboard) (registered : List ℕ) (r : Represents s registered) where
  called : (k : ℕ) → call_listeners k s.listeners_count 0 s.table ≡ calls_of k registered
  called k =
      rw (r.count, r.table)
        (call_listeners-calls_of k 0 registered (registered ++ replicate r.free 0) (λ j h.
          ap (λ n. get_or (registered ++ replicate r.free 0) n 0) (omega arith)
          ∙ get_or-append registered (replicate r.free 0) j h))

  module _ (size : length s.page ≡ page_size) (room : read_size s.page ≤ size_offset) where
    delivered : update_keys (read_size s.page) 0 s ≡ record s {
      locks = switches (take (read_size s.page) s.page) s.locks;
      calls = s.calls ++ deliver (take (read_size s.page) s.page) registered;
    }
    delivered =
        let n = read_size s.page in
        let keys = take n s.page in
        let measured : length keys ≡ n = length-take_le n s.page (omega (arith, size)) in
        ap (λ m. update_keys m 0 s) (sym measured)
        ∙ update_keys-deliver registered keys 0 s called (λ j h.
          ap (λ m. get_or s.page m 0) (omega arith)
          ∙ sym (get_or-take n s.page j 0 (omega (arith, measured))))

    update-empty : read_size s.page ≡ 0 → kbd_update s ≡ s
    unfolding kbd_update
    update-empty none_there = rw (r.started, none_there)

    update-keys :
        0 < read_size s.page
        → kbd_update s ≡ record s {
          locks = switches (take (read_size s.page) s.page) s.locks;
          calls = s.calls ++ deliver (take (read_size s.page) s.page) registered;
          page = write_size (clear_bytes ((read_size s.page + 1) % 2 ^ 16) s.page) 0;
        }
    unfolding kbd_update
    update-keys some_there = rw (==_of_ne (read_size s.page) 0 (omega arith), delivered, r.started)

-- On a started keyboard whose table holds the listeners `registered`, and a page of key codes with
-- at most as many as fit, `kbd_update` hands each key code to each listener that is not `NULL`,
-- key by key, in the order of the table, and switches the states of shift and the locks by the key
-- codes one after another; then the page is empty and the listeners are the same.
pub kbd_update_lem :
    (s : Keyboard) (registered : List ℕ)
    → Represents s registered
    → length s.page ≡ page_size
    → read_size s.page ≤ size_offset
    → let keys = take (read_size s.page) s.page in
      ((kbd_update s).calls ≡ s.calls ++ deliver keys registered)
      × ((kbd_update s).locks ≡ switches keys s.locks)
      × (read_size (kbd_update s).page ≡ 0)
      × Represents (kbd_update s) registered
kbd_update_lem s registered r size room = elim (dec_lt 0 (read_size s.page)) [
  | yes some_there ↦ rw (update-keys s registered r size room some_there) (
    refl,
    refl,
    read-write_size _ 0 (length-clear_bytes _ s.page ∙ size) (omega arith),
    record { started = r.started; count = r.count; free = r.free; size = r.size; table = r.table },
  )
  | no nothing ↦
      let empty : read_size s.page ≡ 0 = omega arith in
      rw (update-empty s registered r size room empty, empty)
        (sym (append-nil s.calls), refl, refl, r)
]

-- The key codes that the kernel saves, at most as many as fit, into a page that is held and empty
-- are the ones that the next `kbd_update` hands to the registered listeners, in the order in which
-- they came.
pub kbd_update-save_keys :
    (keys : List ℕ) (b : KeyBuffer) (s : Keyboard) (registered : List ℕ)
    → IsHeld b
    → read_size b.page ≡ 0
    → length keys ≤ size_offset
    → Represents s registered
    → s.page ≡ (save_keys keys b).page
    → (kbd_update s).calls ≡ s.calls ++ deliver keys registered
kbd_update-save_keys keys b s registered held empty fits r shared =
    let after = save_keys-IsHeld keys b held in
    let saved : contents (save_keys keys b) ≡ keys =
      contents-save_keys keys b held
      ∙ ap (λ n. take n b.page ++ take (size_offset - n) keys) empty
      ∙ take-all size_offset keys fits in
    (kbd_update_lem s registered r (ap length shared ∙ after.size) (rw shared after.room)).0
    ∙ ap (λ l. s.calls ++ deliver l registered) (ap (λ p. take (read_size p) p) shared ∙ saved)
