-- ===== src/Prism/Listeners/Starting.antt =====
-- `kbd_init` and `kbd_kill` of apps/frames/prism/src/kbd/kbd.c.
use skylight.Base.{
  ℕ, ◌≡◌, ◌≢◌, inl, inr, refl, true, false, List, [], ◌∷◌, ◌++◌, ◌==◌, Bool-cases, ==_of_ne,
}
use mathlib.Core.List.{append_assoc}
use skylight.Keyboard.KeyBuffer.{read_size}
use skylight.Prism.Listeners.{Keyboard, kb_man, kbd_init, kbd_kill}
use skylight.Prism.Listeners.Table.{Represents}

-- A keyboard that is not started and has no table, given a page with no key codes in it and a page
-- for its table, starts: `kbd_init` returns true, the page of key codes is the one given, and the
-- table is at the address given and holds no listeners.
pub kbd_init_lem :
    (buffer mapped : ℕ) (bytes : List ℕ) (s : Keyboard)
    → s.started ≡ false
    → s.listeners ≡ 0
    → buffer ≢ 0
    → mapped ≢ 0
    → read_size bytes ≡ 0
    → ((kbd_init buffer bytes mapped s).0 ≡ true)
      × Represents (kbd_init buffer bytes mapped s).1 []
      × ((kbd_init buffer bytes mapped s).1.page ≡ bytes)
      × ((kbd_init buffer bytes mapped s).1.listeners ≡ mapped)
unfolding kbd_init
kbd_init_lem buffer mapped bytes s fresh unmapped real there empty =
    rw (fresh, unmapped, ==_of_ne buffer 0 real, ==_of_ne mapped 0 there, empty)
      (
        refl,
        record { started = refl; count = refl; free = 512; size = refl; table = refl },
        refl,
        refl,
      )

-- A keyboard that has had a table is not started again after `kbd_kill`: whatever the calls
-- return, `kbd_init` returns false and leaves it not started, although it takes a page of key
-- codes again, and it does not give that page back.
pub kbd_init-kbd_kill :
    (buffer mapped : ℕ) (bytes : List ℕ) (s : Keyboard)
    → s.listeners ≢ 0
    → ((kbd_init buffer bytes mapped (kbd_kill s)).0 ≡ false)
      × ((kbd_init buffer bytes mapped (kbd_kill s)).1.started ≡ false)
      × ((kbd_init buffer bytes mapped (kbd_kill s)).1.calls
          ≡ s.calls ++ kb_man false ∷ kb_man true ∷ [])
unfolding kbd_init kbd_kill
kbd_init-kbd_kill buffer mapped bytes s had =
    let log = append_assoc s.calls (kb_man false ∷ []) (kb_man true ∷ []) in
    elim (Bool-cases (buffer == 0)) [
      | inl no_page ↦ rw no_page (refl, refl, log)
      | inr page ↦ elim (Bool-cases (read_size bytes == 0)) [
        | inl empty ↦ rw (page, empty, ==_of_ne s.listeners 0 had) (refl, refl, log)
        | inr codes ↦ rw (page, codes) (refl, refl, log)
      ]
    ]
