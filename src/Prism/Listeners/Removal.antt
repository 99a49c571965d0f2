-- ===== src/Prism/Listeners/Removal.antt =====
-- `kbd_remove_listener` of apps/frames/prism/src/kbd/kbd.c.
use skylight.Base.{
  ℕ, suc, ◌+◌, ◌-◌, ◌<◌, ◌≡◌, ◌≢◌, ◌∙◌, inl, inr, refl, ap, sym, List, ◌∷◌, ◌++◌, none, some,
  if◌then◌else◌, get_or, set, replicate, length, length-append, arith, sub64, ==_of_ne, lt→ltb,
}
use mathlib.Core.Path.{subst}
use mathlib.Core.List.{append-nil, append_assoc}
use mathlib.Core.Option.{map}
use skylight.Prism.Listeners.{
  Keyboard, slots, kbd_remove_listener, find_listener, move_down, clear_last,
}
use skylight.Prism.Listeners.Loops.{
  slot_of, find_listener-slot_of, move_down-append, move_down-some, move_down-none,
  remove_later-place, slot_of-positive,
}
use skylight.Prism.Listeners.Table.{
  Represents, remove_later, set-append, set-get_or, get_or-free, get_or-append,
}

module _ (address : ℕ) (s : Keyboard) (registered : List ℕ) (r : Represents s registered) where
  target : find_listener address s.listeners_count 0 s.table ≡ slot_of address registered 0
  target =
      rw (r.count, r.table)
        (find_listener-slot_of address 0 registered (registered ++ replicate r.free 0) (λ j h.
          ap (λ k. get_or (registered ++ replicate r.free 0) k 0) (omega arith)
          ∙ get_or-append registered (replicate r.free 0) j h))

  -- Nothing happens where the loop stops at slot 0 or finds nothing.
  remove-kept : slot_of address registered 0 ≡ 0 → kbd_remove_listener address s ≡ some s
  unfolding kbd_remove_listener
  remove-kept slot = rw (r.started, target, slot)

  module _ (before after : List ℕ) (split : registered ≡ before ++ address ∷ after)
      (slot : slot_of address registered 0 ≡ length before) (later : 0 < length before) where
    total : length registered ≡ length before + suc (length after)
    total = ap length split ∙ length-append before (address ∷ after)

    cleared : set s.table (length before) 0 ≡ before ++ (0 ∷ (after ++ replicate r.free 0))
    cleared =
        rw (r.table, split)
          (ap (λ t. set t (length before) 0)
              (append_assoc before (address ∷ after) (replicate r.free 0))
            ∙ set-append before (after ++ replicate r.free 0) address 0)

    -- What the second loop starts from.
    loop :
        kbd_remove_listener address s
        ≡ elim (move_down
            (suc (length after))
            (length before)
            (before ++ (0 ∷ (after ++ replicate r.free 0)))) [
              | none ↦ none
              | some table ↦ clear_last s table
            ]
    unfolding kbd_remove_listener
    loop =
        let rounds : s.listeners_count - length before ≡ suc (length after) =
          omega (arith, r.count, total) in
        rw (r.started, target, slot, ==_of_ne (length before) 0 (omega arith), cleared, rounds)

    moved :
        (m : ℕ)
        → r.free ≡ suc m
        → move_down
            (suc (length after))
            (length before)
            (before ++ (0 ∷ (after ++ replicate r.free 0)))
          ≡ some ((before ++ after) ++ replicate (suc (suc m)) 0)
    moved m e = rw e (
        move_down-append (suc (length after)) before (0 ∷ (after ++ replicate (suc m) 0))
        ∙ ap (map (λ u. before ++ u)) (move_down-some 0 0 after (replicate m 0))
        ∙ ap some (sym (append_assoc before after (replicate (suc (suc m)) 0))))

    removed : List ℕ
    removed = before ++ after

    after_clear :
        (m : ℕ)
        → set (removed ++ replicate (suc (suc m)) 0) s.listeners_count 0
          ≡ removed ++ replicate (suc (suc m)) 0
    unfolding removed
    after_clear m = set-get_or _ s.listeners_count 0 (
        get_or-free removed (suc (suc m)) s.listeners_count
          (omega (arith, r.count, total, length-append before after)))

    remove-room :
        (m : ℕ)
        → r.free ≡ suc m
        → kbd_remove_listener address s
          ≡ some (record s {
            table = removed ++ replicate (suc (suc m)) 0;
            listeners_count = sub64 s.listeners_count 1;
          })
    unfolding removed
    remove-room m e = rw (
      loop,
      moved m e,
      lt→ltb s.listeners_count slots (omega (arith, r.count, r.size, e)),
      after_clear m,
    )

    removed-Represents :
        (m : ℕ)
        → r.free ≡ suc m
        → Represents
            (record s {
              table = removed ++ replicate (suc (suc m)) 0;
              listeners_count = sub64 s.listeners_count 1;
            })
            removed
    unfolding removed
    removed-Represents m e =
        let fewer = length-append before after in
        record {
          started = r.started;
          count = omega (arith, r.count, total, r.size, fewer);
          free = suc (suc m);
          size = omega (arith, total, r.size, e, fewer);
          table = refl;
        }

    stuck :
        r.free ≡ 0
        → move_down
            (suc (length after))
            (length before)
            (before ++ (0 ∷ (after ++ replicate r.free 0)))
          ≡ none
    stuck e = rw e (
        ap (λ l. move_down (suc (length after)) (length before) (before ++ (0 ∷ l)))
          (append-nil after)
        ∙ move_down-append (suc (length after)) before (0 ∷ after)
        ∙ ap (map (λ u. before ++ u)) (move_down-none 0 after))

    remove-full : r.free ≡ 0 → kbd_remove_listener address s ≡ none
    remove-full e = rw (loop, stuck e)

-- On a started keyboard whose table holds the listeners `registered`, with a free slot,
-- `kbd_remove_listener` returns and takes the first slot with the address out of the list, moving
-- the later ones down by one; but where slot 0 has the address, or no slot has it, the listeners
-- stay as they are.
pub kbd_remove_listener_lem :
    (address : ℕ) (s : Keyboard) (registered : List ℕ)
    → Represents s registered
    → length registered < slots
    → (t : Keyboard) × (kbd_remove_listener address s ≡ some t)
      × Represents t (remove_later address registered)
unfolding removed
kbd_remove_listener_lem address s registered r room = elim (remove_later-place address registered) [
  | inl (slot, same) ↦ (s, remove-kept address s registered r slot, rw same r)
  | inr (before, after, split, slot, later, gone) ↦
      let m = r.free - 1 in
      let e : r.free ≡ suc m = omega (arith, r.size) in
      (
        _,
        remove-room address s registered r before after split slot later m e,
        rw gone (removed-Represents address s registered r before after split slot later m e),
      )
]

-- When all the slots of the table are taken, `kbd_remove_listener` of an address that stands in
-- the table, but not in slot 0, reads behind the end of the table's page.
pub kbd_remove_listener-full :
    (address first : ℕ) (before after : List ℕ) (s : Keyboard)
    → first ≢ address
    → Represents s (first ∷ before ++ address ∷ after)
    → length (first ∷ before ++ address ∷ after) ≡ slots
    → kbd_remove_listener address s ≡ none
kbd_remove_listener-full address first before after s other r full =
    elim (remove_later-place address (first ∷ before ++ address ∷ after)) [
      | inl (slot, same) ↦ absurd (
          omega (
            arith,
            slot_of-positive address 0 before after,
            subst (λ b. (if b then 0 else slot_of address (before ++ address ∷ after) 1) ≡ 0)
                (==_of_ne first address other) slot,
          ))
      | inr (front, back, split, slot, later, gone) ↦
          remove-full address s _ r front back split slot later (omega (arith, r.size, full))
    ]
