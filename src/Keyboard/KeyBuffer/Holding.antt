-- ===== src/Keyboard/KeyBuffer/Holding.antt =====
-- `kb_man`: who holds the buffer.
use skylight.Base.{
  ℕ, ◌+◌, ◌^◌, ◌<◌, ◌≡◌, ◌≢◌, refl, true, false, List, [], arith, ==_of_ne, ==_of_eq, ==_refl,
  length, take, ap, sym, ◌∙◌,
}
use skylight.Keyboard.KeyBuffer.{KeyBuffer, no_pid, page_size, write_size, kb_man}
use skylight.Keyboard.KeyBuffer.Saving.{IsHeld, contents, read-write_size, length-write_size}

module _ (pid cr3 kpml4 fresh : ℕ) (bytes : List ℕ) (s : KeyBuffer) where
  -- A process, with an id other than -1, that takes the page when nobody holds it gets the new
  -- page, which is then its own and held, with no key codes in it; the page lies at an address
  -- other than 0, below `2 ^ 64`.
  pub kb_man-taken :
      s.current_pid ≡ no_pid
      → pid ≢ no_pid
      → 0 < fresh
      → fresh + page_size < 2 ^ 64
      → length bytes ≡ page_size
      → let (returned, s', _) = kb_man true pid cr3 kpml4 fresh bytes s in
        (returned ≡ fresh) × (s'.current_pid ≡ pid) × IsHeld s' × (contents s' ≡ [])
  unfolding kb_man
  kb_man-taken nobody real mapped fits size =
      let empty = read-write_size bytes 0 size (omega arith) in
      rw (==_of_eq s.current_pid no_pid nobody) (
        refl,
        refl,
        record {
          pid = real;
          buffer = omega arith;
          counter = omega arith;
          size = length-write_size bytes 0 ∙ size;
          room = omega (arith, empty);
        },
        ap (λ n. take n (write_size bytes 0)) empty,
      )

-- While `p`, which took the page when nobody held it, holds it, another process `q` neither gets
-- it nor gives it back: taking it returns `NULL`, and neither call changes its owner or its key
-- codes. After `p` gives it back, `q` gets the next page.
pub kb_man-exclusive :
    (p q cr3 kpml4 fresh next : ℕ) (bytes : List ℕ) (s : KeyBuffer)
    → s.current_pid ≡ no_pid
    → p ≢ no_pid
    → q ≢ p
    → let s' = (kb_man true p cr3 kpml4 fresh bytes s).1 in
      ((kb_man true q cr3 kpml4 next bytes s').0 ≡ 0)
      × ((kb_man true q cr3 kpml4 next bytes s').1 ≡ s')
      × ((kb_man false q cr3 kpml4 next bytes s').1 ≡ s')
      × ((kb_man true q cr3 kpml4 next bytes (kb_man false p cr3 kpml4 next bytes s').1).0 ≡ next)
unfolding kb_man
kb_man-exclusive p q cr3 kpml4 fresh next bytes s nobody real other =
    rw
      (
        ==_of_eq s.current_pid no_pid nobody,
        ==_of_ne p no_pid real,
        ==_of_ne p q (λ e. other (sym e)),
        ==_refl p,
      )
      (refl, refl, refl, refl)
