-- ===== src/Heap/Total.antt =====
-- `malloc` always returns, and what it returns.
use mathlib.Core.Path.{subst}
use skylight.Base.{
  ℕ, suc, ◌+◌, ◌*◌, ◌^◌, ◌≤◌, ◌<◌, ◌≡◌, ◌≢◌, ◌∙◌, refl, ap, sym, true, ◌⊎◌, inl, inr, Option, none,
  some, [], ◌∷◌, ◌++◌, arith, leb, Bool-cases, length,
}
use skylight.Linked.{Ptr, null}
use skylight.Heap.{Segment, segment, Heap, heap_expand, round_page, search_from, malloc_rounded}
use skylight.Heap.Layout.{Cells, first, IsHeap}
use skylight.Heap.FirstFit.{used, first_fit, behind, fits, Fit, first_fit-Fit, Inserted}
use skylight.Heap.Give.{Found}
use skylight.Heap.Search.{search_from-Found}
use skylight.Heap.Expand.{round_page_lem}
use skylight.Heap.Apart.{KeepsApart, first_fit-KeepsApart}
use skylight.Heap.Sound.{IsSound, snoc-cases}
use skylight.Heap.Grow.{EndsFree, gain, Grows, heap_expand_lem}

behind-ne-none : (c : Ptr × Segment) (r : Option (Ptr × Cells)) → r ≢ none → behind c r ≢ none
behind-ne-none c none ne e = ne refl
behind-ne-none c (some r) ne e = cc

-- A search finds room where the last segment is free and long enough.
first_fit-ne-none :
    (size m : ℕ) (pre : Cells) (l : Ptr)
    → size ≤ m
    → first_fit size (pre ++ (l, segment m true) ∷ []) ≢ none
first_fit-ne-none size m [] l fit e =
    let enough : leb size m ≡ true = ground arith in cc (rw enough at e)
first_fit-ne-none size m ((p, s) ∷ pre) l fit e = elim (Bool-cases (fits size s)) [
  | inl here ↦ cc (simp here at e)
  | inr on ↦ behind-ne-none (p, s) _ (first_fit-ne-none size m pre l fit) (simp on at e)
]

-- What an allocation of `size` bytes comes to: the heap stays sound, and the segments in use are
-- the ones before and one more, `size` bytes long at least, whose data is at the address returned.
abbrev pub Allocates : Heap → Cells → ℕ → Option (Ptr × Heap) → Type 0
Allocates h xs size run =
    (g : Heap) × (p : Ptr) × (ys : Cells) × (run ≡ some (p, g))
    × (IsSound g ys × Inserted p size (used xs) (used ys))

-- What one search comes to: an allocation, or nothing fits and nothing changes.
abbrev Searches : Heap → Cells → ℕ → Option (Option Ptr × Heap) → Type 0
Searches h xs size run =
    ((first_fit size xs ≡ none) × (run ≡ some (none, h)))
    ⊎ ((g : Heap) × (p : Ptr) × (ys : Cells) × (run ≡ some (some p, g))
        × (IsSound g ys × Inserted p size (used xs) (used ys)))

length_pos : (ys : Cells) → 0 < first ys → 0 < length ys
length_pos [] h = h
length_pos (c ∷ ys) h = omega arith

module _ (h : Heap) (p : Ptr) (s : Segment) (xs : Cells) (size : ℕ)
    (is : IsSound h ((p, s) ∷ xs)) where
  search-settled :
      (run : Option (Option Ptr × Heap)) (r : Option (Ptr × Cells))
      → first_fit size ((p, s) ∷ xs) ≡ r
      → Found h null h.heap_start r run
      → Fit size ((p, s) ∷ xs) r
      → KeepsApart ((p, s) ∷ xs) r
      → Searches h ((p, s) ∷ xs) size run
  search-settled run none e found fit keeps = inl (e, found)
  search-settled run (some (a, ys)) e found fit keeps = inr (
    found.0,
    a,
    ys,
    found.1,
    (
      record {
        heap = subst (λ c. IsHeap found.0 null c ys) (sym found.2.1.heap_start) found.2.0;
        coalesced = keeps.0;
        ready = found.2.1.heap_initialized ∙ is.ready;
        some_cell = length_pos ys (omega (arith, fit.1, is.heap.nonnull, is.heap.layout.0));
      },
      fit.0,
    ),
  )

module _ (size : ℕ) (large : 16 ≤ size) (limit : size < 2 ^ 62) where
  search_from-Searches :
      (h : Heap) (xs : Cells) (rounds : ℕ)
      → IsSound h xs
      → length xs ≤ rounds
      → Searches h xs size (search_from rounds h.heap_start size h)
  search_from-Searches h [] rounds is few = absurd (omega (arith, is.some_cell))
  search_from-Searches h ((p, s) ∷ xs) rounds is few =
      search-settled h p s xs size is (search_from rounds h.heap_start size h)
        (first_fit size ((p, s) ∷ xs)) refl
        (subst
          (λ a.
            Found h null h.heap_start (first_fit size ((p, s) ∷ xs)) (search_from rounds a size h))
          is.heap.layout.0
          (search_from-Found size large limit rounds h null h.heap_start p s xs is.heap
            (omega arith)))
        (first_fit-Fit size ((p, s) ∷ xs)) (first_fit-KeepsApart size ((p, s) ∷ xs) is.coalesced)

  malloc_rounded-found :
      (h g : Heap) (rounds tries : ℕ) (p : Ptr)
      → search_from rounds h.heap_start size h ≡ some (some p, g)
      → malloc_rounded rounds (suc tries) size h ≡ some (p, g)
  unfolding malloc_rounded
  malloc_rounded-found h g rounds tries p run = rw run

  malloc_rounded-again :
      (h g : Heap) (rounds tries : ℕ)
      → search_from rounds h.heap_start size h ≡ some (none, h)
      → heap_expand size h ≡ some (tt, g)
      → malloc_rounded rounds (suc tries) size h ≡ malloc_rounded rounds tries size g
  unfolding malloc_rounded
  malloc_rounded-again h g rounds tries run grown = rw (run, grown)

  -- A run that first grew the heap.
  Allocates-Grows :
      (h g : Heap) (xs ys : Cells) (run run' : Option (Ptr × Heap))
      → used ys ≡ used xs
      → run' ≡ run
      → Allocates g ys size run
      → Allocates h xs size run'
  Allocates-Grows h g xs ys run run' e same (f, p, zs, ran, (sound, new)) =
      (f, p, zs, same ∙ ran, (sound, subst (λ u. Inserted p size u (used zs)) e new))

  -- With its last segment free and long enough, a heap needs no more memory.
  third_try :
      (h : Heap) (xs : Cells) (rounds tries m : ℕ)
      → IsSound h xs
      → length xs ≤ rounds
      → EndsFree m xs
      → size ≤ m
      → Allocates h xs size (malloc_rounded rounds (suc tries) size h)
  third_try h xs rounds tries m is few (pre, l, e) fit =
      elim (search_from-Searches h xs rounds is few) [
        | inl (nothing, _) ↦
            absurd (first_fit-ne-none size m pre l fit (ap (first_fit size) (sym e) ∙ nothing))
        | inr (g, p, ys, run, (sound, new)) ↦
            (g, p, ys, malloc_rounded-found h g rounds tries p run, (sound, new))
      ]

  -- With its last segment free, a heap that grows once has room.
  second_try :
      (h : Heap) (pre : Cells) (l : Ptr) (m : ℕ) (rounds tries : ℕ)
      → IsSound h (pre ++ (l, segment m true) ∷ [])
      → length (pre ++ (l, segment m true) ∷ []) + 1 ≤ rounds
      → h.heap_end + size + 0x1000 < 2 ^ 63
      → Allocates h
          (pre ++ (l, segment m true) ∷ [])
          size
          (malloc_rounded rounds (suc (suc tries)) size h)
  second_try h pre l m rounds tries is few room =
      elim (search_from-Searches h (pre ++ (l, segment m true) ∷ []) rounds is (omega arith)) [
        | inr (g, p, ys, run, (sound, new)) ↦
            (g, p, ys, malloc_rounded-found h g rounds (suc tries) p run, (sound, new))
        | inl (nothing, run) ↦ again run (heap_expand_lem h pre l m true size is (omega arith) room)
      ]
    where
      again :
          search_from rounds h.heap_start size h ≡ some (none, h)
          → Grows h
              (pre ++ (l, segment m true) ∷ [])
              (segment m true)
              (round_page size)
              (heap_expand size h)
          → Allocates h
              (pre ++ (l, segment m true) ∷ [])
              size
              (malloc_rounded rounds (suc (suc tries)) size h)
      again run (g, ys, grown, (sound, same, end, longer, ends)) =
          let r = round_page_lem size (omega arith) in
          Allocates-Grows h g (pre ++ (l, segment m true) ∷ []) ys
            (malloc_rounded rounds (suc tries) size g)
            (malloc_rounded rounds (suc (suc tries)) size h) same
            (malloc_rounded-again h g rounds (suc tries) run grown)
            (third_try g ys rounds tries (m + round_page size) sound (omega arith) ends
              (omega (arith, r.0)))

  second_on :
      (h : Heap) (xs : Cells) (m : ℕ) (rounds tries : ℕ)
      → IsSound h xs
      → length xs + 1 ≤ rounds
      → h.heap_end + size + 0x1000 < 2 ^ 63
      → EndsFree m xs
      → Allocates h xs size (malloc_rounded rounds (suc (suc tries)) size h)
  second_on h xs m rounds tries is few room (pre, l, e) =
      subst
        (λ c.
          IsSound h c
          → length c + 1 ≤ rounds
          → Allocates h c size (malloc_rounded rounds (suc (suc tries)) size h))
        (sym e) (λ sound few'. second_try h pre l m rounds tries sound few' room) is few

  -- Any sound heap has room after growing twice.
  pub first_try :
      (h : Heap) (xs : Cells) (rounds tries : ℕ)
      → IsSound h xs
      → length xs + 2 ≤ rounds
      → h.heap_end + 2 * size + 0x2000 < 2 ^ 63
      → Allocates h xs size (malloc_rounded rounds (suc (suc (suc tries))) size h)
  first_try h xs rounds tries is few room =
      elim (search_from-Searches h xs rounds is (omega arith)) [
        | inr (g, p, ys, run, (sound, new)) ↦
            (g, p, ys, malloc_rounded-found h g rounds (suc (suc tries)) p run, (sound, new))
        | inl (nothing, run) ↦ elim (snoc-cases xs) [
          | inl e ↦ absurd (omega (arith, ap length e, is.some_cell))
          | inr (pre, l, k, e) ↦ again k run (
              subst (λ c. IsSound h c → Grows h c k (round_page size) (heap_expand size h)) (sym e)
                (λ sound.
                  heap_expand_lem h pre l k.length k.free size sound (omega arith) (omega arith))
                is)
        ]
      ]
    where
      again :
          (k : Segment)
          → search_from rounds h.heap_start size h ≡ some (none, h)
          → Grows h xs k (round_page size) (heap_expand size h)
          → Allocates h xs size (malloc_rounded rounds (suc (suc (suc tries))) size h)
      again k run (g, ys, grown, (sound, same, end, longer, ends)) =
          let r = round_page_lem size (omega arith) in
          Allocates-Grows h g xs ys (malloc_rounded rounds (suc (suc tries)) size g)
            (malloc_rounded rounds (suc (suc (suc tries))) size h) same
            (malloc_rounded-again h g rounds (suc (suc tries)) run grown)
            (second_on g ys (gain k (round_page size)) rounds tries sound (omega arith)
              (omega (arith, r.1)) ends)
