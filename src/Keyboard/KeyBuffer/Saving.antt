-- ===== src/Keyboard/KeyBuffer/Saving.antt =====
-- `__kb_man_save_key`: a bounded log of key codes.
use skylight.Base.{
  ℕ, zero, suc, ◌+◌, ◌-◌, ◌/◌, ◌%◌, ◌^◌, ◌≤◌, ◌<◌, ◌≡◌, ◌≢◌, ◌∙◌, refl, ap, sym, false, List, [],
  ◌∷◌, ◌++◌, arith, ◌==◌, get_or, set, take, length, length-set, get_or-set_self, get_or-set_ne,
  take-set_le, take-set-suc, ==_of_ne, lt→leb, le→leb, ◌||◌,
}
use mathlib.Core.List.{append-nil, append_assoc}
use native.Mathlib.Decide.{dec_lt}
use native.Mathlib.Numerals.{add-one}
use skylight.Keyboard.KeyBuffer.{
  KeyBuffer, no_pid, page_size, size_offset, read_size, write_size, save_key, save_keys,
}

-- A buffer that a process holds.
pub record IsHeld (s : KeyBuffer) : Type 0 where
  pub pid : s.current_pid ≢ no_pid
  pub buffer : s.current_buffer ≢ 0
  pub counter : s.current_size ≢ 0
  pub size : length s.page ≡ page_size
  pub room : read_size s.page ≤ size_offset

-- The key codes in the page, in the order in which they came.
abbrev pub contents : KeyBuffer → List ℕ
contents s = take (read_size s.page) s.page

pub length-write_size : (page : List ℕ) (n : ℕ) → length (write_size page n) ≡ length page
length-write_size page n =
    length-set (set page 4094 (n % 256)) 4095 (n / 256 % 256) ∙ length-set page 4094 (n % 256)

pub read-write_size :
    (page : List ℕ) (n : ℕ)
    → length page ≡ page_size
    → n < 2 ^ 16
    → read_size (write_size page n) ≡ n
read-write_size page n size fits =
    let low : get_or (write_size page n) 4094 0 ≡ n % 256 =
      get_or-set_ne (set page 4094 (n % 256)) 4095 4094 (n / 256 % 256) 0 (omega arith)
      ∙ get_or-set_self page 4094 (n % 256) 0 (omega arith) in
    let high : get_or (write_size page n) 4095 0 ≡ n / 256 % 256 =
      get_or-set_self (set page 4094 (n % 256)) 4095 (n / 256 % 256) 0
        (omega (arith, length-set page 4094 (n % 256))) in
    omega (arith, low, high)

-- A write before the number of codes leaves it alone.
read_size-set :
    (page : List ℕ) (i v : ℕ) → i < size_offset → read_size (set page i v) ≡ read_size page
read_size-set page i v below =
    let low = get_or-set_ne page i 4094 v 0 (omega arith) in
    let high = get_or-set_ne page i 4095 v 0 (omega arith) in omega (arith, low, high)

take-write_size :
    (page : List ℕ) (n k : ℕ) → k ≤ size_offset → take k (write_size page n) ≡ take k page
take-write_size page n k le =
    take-set_le (set page 4094 (n % 256)) k 4095 (n / 256 % 256) (omega arith)
    ∙ take-set_le page k 4094 (n % 256) le

module _ (k : ℕ) (s : KeyBuffer) (v : IsHeld s) where
  open_guard :
      ((s.current_pid == no_pid) || (s.current_buffer == 0) || (s.current_size == 0)) ≡ false
  open_guard = rw (
    ==_of_ne s.current_pid no_pid v.pid,
    ==_of_ne s.current_buffer 0 v.buffer,
    ==_of_ne s.current_size 0 v.counter,
  )

  save_key-full : size_offset ≤ read_size s.page → save_key k s ≡ s
  unfolding save_key
  save_key-full full = rw (open_guard, le→leb _ _ full)

  -- The page after a key code is saved at `n`, where the count was `n`.
  saved_page : List ℕ
  saved_page = set (write_size s.page (read_size s.page + 1)) (read_size s.page) k

  save_key-room : read_size s.page < size_offset → save_key k s ≡ record s { page = saved_page }
  unfolding save_key saved_page
  save_key-room room = rw (open_guard, lt→leb _ _ room)

  read_size-saved : read_size s.page < size_offset → read_size saved_page ≡ read_size s.page + 1
  unfolding saved_page
  read_size-saved room =
      read_size-set (write_size s.page (read_size s.page + 1)) (read_size s.page) k room
      ∙ read-write_size s.page (read_size s.page + 1) v.size (omega arith)

  take-saved :
      read_size s.page < size_offset
      → take (suc (read_size s.page)) saved_page ≡ contents s ++ k ∷ []
  unfolding saved_page
  take-saved room =
      take-set-suc (write_size s.page (read_size s.page + 1)) (read_size s.page) k
        (omega (arith, length-write_size s.page (read_size s.page + 1), v.size))
      ∙ ap (λ l. l ++ k ∷ [])
          (take-write_size s.page (read_size s.page + 1) (read_size s.page) v.room)

  -- Saving a key code in a page with room appends it to the codes held.
  pub contents-save_key :
      read_size s.page < size_offset → contents (save_key k s) ≡ contents s ++ k ∷ []
  contents-save_key room =
      ap contents (save_key-room room)
      ∙ ap (λ n. take n saved_page) (read_size-saved room ∙ add-one (read_size s.page))
      ∙ take-saved room

  length-saved_page : length saved_page ≡ page_size
  unfolding saved_page
  length-saved_page =
      length-set (write_size s.page (read_size s.page + 1)) (read_size s.page) k
      ∙ length-write_size s.page (read_size s.page + 1)
      ∙ v.size

  pub save_key-IsHeld : IsHeld (save_key k s)
  save_key-IsHeld = elim (dec_lt (read_size s.page) size_offset) [
    | yes room ↦ rw (save_key-room room) (record {
      pid = v.pid;
      buffer = v.buffer;
      counter = v.counter;
      size = length-saved_page;
      room = omega (arith, read_size-saved room);
    })
    | no full ↦ rw (save_key-full (omega arith)) v
  ]

read_size-save_key :
    (k : ℕ) (s : KeyBuffer)
    → IsHeld s
    → read_size s.page < size_offset
    → read_size (save_key k s).page ≡ read_size s.page + 1
read_size-save_key k s v room =
    ap (λ t. read_size t.page) (save_key-room k s v room) ∙ read_size-saved k s v room

take-nil : (n : ℕ) → take {A = ℕ} n [] ≡ []
take-nil zero = refl
take-nil (suc n) = refl

-- Key codes saved one after another into a held page are kept in the order in which they came,
-- behind the ones that were there, until the page is full; the rest is dropped.
pub contents-save_keys :
    (ks : List ℕ) (s : KeyBuffer)
    → IsHeld s
    → contents (save_keys ks s) ≡ contents s ++ take (size_offset - read_size s.page) ks
unfolding save_keys
contents-save_keys [] s v = sym (
    ap (λ l. contents s ++ l) (take-nil (size_offset - read_size s.page)) ∙ append-nil (contents s))
contents-save_keys (k ∷ ks) s v = elim (dec_lt (read_size s.page) size_offset) [
  | yes room ↦
      let n : ℕ = read_size s.page in
      let more : suc (size_offset - read_size (save_key k s).page) ≡ size_offset - n =
        omega (arith, read_size-save_key k s v room) in
      contents-save_keys ks (save_key k s) (save_key-IsHeld k s v)
      ∙ ap (λ l. l ++ take (size_offset - read_size (save_key k s).page) ks)
          (contents-save_key k s v room)
      ∙ append_assoc (contents s) (k ∷ []) (take (size_offset - read_size (save_key k s).page) ks)
      ∙ ap (λ m. contents s ++ take m (k ∷ ks)) more
  | no full ↦
      let none_left : size_offset - read_size s.page ≡ 0 = omega arith in
      ap (λ t. contents (save_keys ks t)) (save_key-full k s v (omega arith))
      ∙ contents-save_keys ks s v
      ∙ ap (λ m. contents s ++ take m ks) none_left
      ∙ ap (λ m. contents s ++ take m (k ∷ ks)) (sym none_left)
]

pub save_keys-IsHeld : (ks : List ℕ) (s : KeyBuffer) → IsHeld s → IsHeld (save_keys ks s)
unfolding save_keys
save_keys-IsHeld [] s v = v
save_keys-IsHeld (k ∷ ks) s v = save_keys-IsHeld ks (save_key k s) (save_key-IsHeld k s v)
