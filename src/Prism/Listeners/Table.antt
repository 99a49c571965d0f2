-- ===== src/Prism/Listeners/Table.antt =====
-- The table of listeners as a list, for `kbd_add_listener` and `kbd_remove_listener`.
use skylight.Base.{
  ℕ, zero, suc, ◌+◌, ◌-◌, ◌≤◌, ◌<◌, ◌≡◌, ◌∙◌, refl, ap, sym, Bool, true, false, List, [], ◌∷◌, ◌++◌,
  ◌==◌, ltb, if◌then◌else◌, get_or, set, replicate, length, length-append, arith, le→leb, lt→leb,
  lt→ltb, le→ltb,
}
use native.Mathlib.Decide.{dec_lt}
use mathlib.Core.List.{append_assoc}
use skylight.Prism.Listeners.{Keyboard, slots, kbd_add_listener}

-- The started keyboard whose table holds the listeners `registered`, in the order of their slots.
pub record Represents (s : Keyboard) (registered : List ℕ) : Type 0 where
  pub started : s.started ≡ true
  pub count : s.listeners_count ≡ length registered
  pub free : ℕ
  pub size : length registered + free ≡ slots
  pub table : s.table ≡ registered ++ replicate free 0

-- Listeners are added behind the others while there is room.
abbrev pub add : ℕ → List ℕ → Bool × List ℕ
add address registered =
    if ltb (length registered) slots
    then (true, registered ++ address ∷ [])
    else (false, registered)

abbrev pub remove_first : ℕ → List ℕ → List ℕ
remove_first address [] = []
remove_first address (x ∷ xs) =
    let rest = remove_first address xs in if x == address then xs else x ∷ rest

-- Removal as the code does it: the first listener is never removed, and where it is the address
-- looked for, nothing is.
abbrev pub remove_later : ℕ → List ℕ → List ℕ
remove_later address [] = []
remove_later address (x ∷ xs) = if x == address then x ∷ xs else x ∷ remove_first address xs

pub set-append : (xs ys : List ℕ) (v w : ℕ) → set (xs ++ v ∷ ys) (length xs) w ≡ xs ++ w ∷ ys
set-append [] ys v w = refl
set-append (x ∷ xs) ys v w = ap (λ l. x ∷ l) (set-append xs ys v w)

pub set-get_or : (xs : List ℕ) (i v : ℕ) → get_or xs i v ≡ v → set xs i v ≡ xs
set-get_or [] i v h = refl
set-get_or (x ∷ xs) zero v h = ap (λ y. y ∷ xs) (sym h)
set-get_or (x ∷ xs) (suc i) v h = ap (λ l. x ∷ l) (set-get_or xs i v h)

pub get_or-free : (xs : List ℕ) (n j : ℕ) → length xs ≤ j → get_or (xs ++ replicate n 0) j 0 ≡ 0
get_or-free [] zero j h = refl
get_or-free [] (suc n) zero h = refl
get_or-free [] (suc n) (suc j) h = get_or-free [] n j (omega arith)
get_or-free (x ∷ xs) n zero h = absurd (omega arith)
get_or-free (x ∷ xs) n (suc j) h = get_or-free xs n j (omega arith)

pub get_or-append : (xs ys : List ℕ) (j : ℕ) → j < length xs → get_or (xs ++ ys) j 0 ≡ get_or xs j 0
get_or-append [] ys j h = absurd (omega arith)
get_or-append (x ∷ xs) ys zero h = refl
get_or-append (x ∷ xs) ys (suc j) h = get_or-append xs ys j (omega arith)

module _ (address : ℕ) (s : Keyboard) (registered : List ℕ) (r : Represents s registered) where
  add_room :
      length registered < slots
      → kbd_add_listener address s ≡ (
        true,
        record s {
          table = set s.table s.listeners_count address;
          listeners_count = s.listeners_count + 1;
        },
      )
  unfolding kbd_add_listener
  add_room room = rw (r.started, r.count, lt→leb slots (length registered) room)

  add_full : slots ≤ length registered → kbd_add_listener address s ≡ (false, s)
  unfolding kbd_add_listener
  add_full full = rw (r.started, r.count, le→leb slots (length registered) full)

  added_table :
      (m : ℕ)
      → r.free ≡ suc m
      → set s.table s.listeners_count address ≡ (registered ++ address ∷ []) ++ replicate m 0
  added_table m e =
      rw (r.table, r.count, e)
        (set-append registered (replicate m 0) 0 address
          ∙ sym (append_assoc registered (address ∷ []) (replicate m 0)))

-- On a started keyboard whose table holds the listeners `registered`, `kbd_add_listener` adds the
-- address behind the others and returns true; a full table stays as it is, and the result is
-- false.
pub kbd_add_listener_lem :
    (address : ℕ) (s : Keyboard) (registered : List ℕ)
    → Represents s registered
    → ((kbd_add_listener address s).0 ≡ (add address registered).0)
      × Represents (kbd_add_listener address s).1 (add address registered).1
kbd_add_listener_lem address s registered r = elim (dec_lt (length registered) slots) [
  | yes room ↦
      let grown = length-append registered (address ∷ []) in
      let m = r.free - 1 in
      rw (add_room address s registered r room, lt→ltb _ _ room)
        (
          refl,
          record {
            started = r.started;
            count = omega (arith, r.count, grown);
            free = m;
            size = omega (arith, r.size, grown);
            table = added_table address s registered r m (omega (arith, r.size));
          },
        )
  | no full ↦
      rw
        (
          add_full address s registered r (omega arith),
          le→ltb (length registered) slots (omega arith),
        )
        (refl, r)
]
