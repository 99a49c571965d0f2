-- ===== src/Prism/Listeners/Loops.antt =====
-- The two loops of `kbd_remove_listener`, apps/frames/prism/src/kbd/kbd.c.
use skylight.Base.{
  ℕ, zero, suc, ◌+◌, ◌<◌, ◌≡◌, ◌⊎◌, ◌∙◌, inl, inr, refl, ap, List, [], ◌∷◌, ◌++◌, Option, none,
  some, ◌==◌, if◌then◌else◌, get_or, set, length, arith, Bool-cases, ==_refl, ==_iff,
}
use mathlib.Core.Option.{map}
use skylight.Prism.Listeners.{find_listener, move_down, read_slot}
use skylight.Prism.Listeners.Table.{remove_first, remove_later}

-- The slot that the first loop stops at, counted from `i`.
abbrev pub slot_of : ℕ → List ℕ → ℕ → ℕ
slot_of address [] i = 0
slot_of address (x ∷ xs) i =
    let rest = slot_of address xs (suc i) in if x == address then i else rest

pub find_listener-slot_of :
    (address i : ℕ) (xs table : List ℕ)
    → ((j : ℕ) → j < length xs → get_or table (i + j) 0 ≡ get_or xs j 0)
    → find_listener address (length xs) i table ≡ slot_of address xs i
unfolding find_listener
find_listener-slot_of address i [] table same = refl
find_listener-slot_of address i (x ∷ xs) table same =
    let here : get_or table i 0 ≡ x =
      ap (λ k. get_or table k 0) (omega arith) ∙ same 0 (omega arith) in
    let rest =
      find_listener-slot_of address (suc i) xs table
        (λ j h. ap (λ k. get_or table k 0) (omega arith) ∙ same (suc j) (omega arith)) in
    rw (here, rest)

-- Where the first loop stops, and what `remove_first` leaves of a list.
data Place (address i : ℕ) (xs : List ℕ) : Type 0 where
  absent : slot_of address xs i ≡ 0 → remove_first address xs ≡ xs → Place address i xs
  present :
      (before after : List ℕ)
      → xs ≡ before ++ address ∷ after
      → slot_of address xs i ≡ i + length before
      → remove_first address xs ≡ before ++ after
      → Place address i xs

place : (address i : ℕ) (xs : List ℕ) → Place address i xs
place address i [] = absent refl refl
place address i (x ∷ xs) = elim (Bool-cases (x == address)) [
  | inl e ↦ present [] xs (ap (λ y. y ∷ xs) ((==_iff x address).0 e)) (rw e (omega arith)) (rw e)
  | inr ne ↦ elim (place address (suc i) xs) [
    | absent slot gone ↦ absent (rw (ne, slot)) (rw (ne, gone))
    | present before after split slot gone ↦
        present (x ∷ before) after (ap (λ l. x ∷ l) split) (rw ne (omega (arith, slot)))
          (rw (ne, gone))
  ]
]

move_down-cons :
    (n i x : ℕ) (t : List ℕ) → move_down n (suc i) (x ∷ t) ≡ map (λ u. x ∷ u) (move_down n i t)
unfolding move_down
move_down-cons zero i x t = refl
move_down-cons (suc n) i x t =
    go (read_slot t (suc i)) (λ v. move_down-cons n (suc i) x (set t i v))
  where
    go :
        (o : Option ℕ)
        → ((v : ℕ)
            → move_down n (suc (suc i)) (x ∷ set t i v)
              ≡ map (λ u. x ∷ u) (move_down n (suc i) (set t i v)))
        → elim o [ none ↦ none | some v ↦ move_down n (suc (suc i)) (x ∷ set t i v) ]
          ≡ map (λ u. x ∷ u) (elim o [ none ↦ none | some v ↦ move_down n (suc i) (set t i v) ])
    go none rest = refl
    go (some v) rest = rest v

pub move_down-append :
    (n : ℕ) (xs t : List ℕ)
    → move_down n (length xs) (xs ++ t) ≡ map (λ u. xs ++ u) (move_down n 0 t)
move_down-append n [] t = go (move_down n 0 t)
  where
    go : (o : Option (List ℕ)) → o ≡ map (λ u. [] ++ u) o
    go none = refl
    go (some u) = refl
move_down-append n (x ∷ xs) t =
    move_down-cons n (length xs) x (xs ++ t)
    ∙ ap (map (λ u. x ∷ u)) (move_down-append n xs t)
    ∙ go (move_down n 0 t)
  where
    go : (o : Option (List ℕ)) → map (λ u. x ∷ u) (map (λ u. xs ++ u) o) ≡ map (λ u. x ∷ xs ++ u) o
    go none = refl
    go (some u) = refl

-- The rest of the table moves over the first slot, together with one slot behind it.
pub move_down-some :
    (x y : ℕ) (after rest : List ℕ)
    → move_down (suc (length after)) 0 (x ∷ after ++ y ∷ rest) ≡ some (after ++ y ∷ y ∷ rest)
unfolding move_down
move_down-some x y [] rest = refl
move_down-some x y (z ∷ after) rest =
    move_down-cons (suc (length after)) 0 z (z ∷ after ++ y ∷ rest)
    ∙ ap (map (λ u. z ∷ u)) (move_down-some z y after rest)

-- Without that slot the loop reads behind the page.
pub move_down-none : (x : ℕ) (after : List ℕ) → move_down (suc (length after)) 0 (x ∷ after) ≡ none
unfolding move_down
move_down-none x [] = refl
move_down-none x (z ∷ after) =
    move_down-cons (suc (length after)) 0 z (z ∷ after)
    ∙ ap (map (λ u. z ∷ u)) (move_down-none z after)

-- What `kbd_remove_listener` does to the listeners `registered`: it removes the first slot with the
-- address, unless that is slot 0.
pub remove_later-place :
    (address : ℕ) (xs : List ℕ)
    → ((slot_of address xs 0 ≡ 0) × (remove_later address xs ≡ xs))
      ⊎ ((before : List ℕ) × (after : List ℕ) × (xs ≡ before ++ address ∷ after)
          × (slot_of address xs 0 ≡ length before)
          × (0 < length before)
          × (remove_later address xs ≡ before ++ after))
remove_later-place address [] = inl (refl, refl)
remove_later-place address (x ∷ xs) = elim (Bool-cases (x == address)) [
  | inl e ↦ inl (rw e refl, rw e)
  | inr ne ↦ elim (place address 1 xs) [
    | absent slot gone ↦ inl (rw (ne, slot), rw (ne, gone))
    | present before after split slot gone ↦ inr (
      x ∷ before,
      after,
      ap (λ l. x ∷ l) split,
      rw ne (omega (arith, slot)),
      omega arith,
      rw (ne, gone),
    )
  ]
]

pub slot_of-positive :
    (address i : ℕ) (before after : List ℕ)
    → 0 < slot_of address (before ++ address ∷ after) (suc i)
slot_of-positive address i [] after = rw (==_refl address) (omega arith)
slot_of-positive address i (x ∷ before) after = elim (Bool-cases (x == address)) [
  | inl e ↦ rw e (omega arith)
  | inr ne ↦ rw ne (slot_of-positive address (suc i) before after)
]
