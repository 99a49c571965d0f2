-- ===== src/Heap/Sound.antt =====
-- The heap's invariant, and that `free` and `heap_expand` keep it.
use mathlib.Core.Path.{subst}
use skylight.Base.{
  ℕ, ◌+◌, ◌<◌, ◌≡◌, ◌∙◌, refl, ap, sym, true, false, ◌⊎◌, inl, inr, some, [], ◌∷◌, ◌++◌, arith,
  length, length-append,
}
use mathlib.Core.List.{append_assoc}
use skylight.Linked.{Ptr, null}
use skylight.Heap
use skylight.Heap.{Segment, segment, header_size, Heap}
use skylight.Heap.Layout.{Cells, IsHeap}
use skylight.Heap.FirstFit.{used}
use skylight.Heap.Focus.{inner}
use skylight.Heap.Free.{freed, freed_rest, release, free-first, free-inside}
use skylight.Heap.Coalesce.{
  Coalesced, used-append, used-freed, used-release, Coalesced-freed_rest, apart-freed,
  Coalesced-release,
}

-- The heap consists of the segments `xs`, from its start to its end, at least one; no two free
-- segments are neighbours.
pub record IsSound (h : Heap) (xs : Cells) : Type 0 where
  pub heap : IsHeap h null h.heap_start xs
  pub coalesced : Coalesced xs
  pub ready : h.heap_initialized ≡ true
  pub some_cell : 0 < length xs

pub snoc-cases :
    (xs : Cells)
    → (xs ≡ []) ⊎ ((pre : Cells) × (l : Ptr) × (k : Segment) × (xs ≡ pre ++ (l, k) ∷ []))
snoc-cases [] = inl refl
snoc-cases ((p, s) ∷ xs) = elim (snoc-cases xs) [
  | inl e ↦ inr ([], p, s, ap (λ r. (p, s) ∷ r) e)
  | inr (pre, l, k, e) ↦ inr ((p, s) ∷ pre, l, k, ap (λ r. (p, s) ∷ r) e)
]

pub append-cons :
    (pre : Cells) (c : Ptr × Segment) (xs : Cells) → (pre ++ c ∷ []) ++ xs ≡ pre ++ c ∷ xs
append-cons [] c xs = refl
append-cons (d ∷ pre) c xs = ap (λ r. d ∷ r) (append-cons pre c xs)

pub length-snoc : (pre : Cells) (c : Ptr × Segment) (xs : Cells) → 0 < length (pre ++ c ∷ xs)
length-snoc pre c xs = omega (arith, length-append pre (c ∷ xs))

-- What `free` of the data at `p + header_size` comes to.
abbrev pub Frees : Heap → Ptr → Cells → Type 0
Frees h p rest =
    (g : Heap) × (ys : Cells) × (Heap.free (p + header_size) h ≡ some (tt, g))
    × (IsSound g ys × (used ys ≡ rest))

Frees-first :
    (h : Heap) (p : Ptr) (s : Segment) (xs : Cells) → IsSound h ((p, s) ∷ xs) → Frees h p (used xs)
Frees-first h p s xs is =
    let done = free-first h p s xs (inner h null h.heap_start [] p s xs is.heap) in
    let f = used-freed s.length p xs in
    (
      done.0,
      (p, freed s.length xs) ∷ freed_rest xs,
      done.1,
      (
        record {
          heap =
              subst (λ a. IsHeap done.0 null a ((p, freed s.length xs) ∷ freed_rest xs))
                (is.heap.layout.0 ∙ sym done.2.1.heap_start) done.2.0;
          coalesced = (
            apart-freed s.length xs (freed s.length xs) is.coalesced.1,
            Coalesced-freed_rest xs is.coalesced.1,
          );
          ready = done.2.1.heap_initialized ∙ is.ready;
          some_cell = omega arith;
        },
        simp f.0 f.1,
      ),
    )

Frees-inside :
    (h : Heap) (pre : Cells) (l : Ptr) (k : Segment) (p : Ptr) (s : Segment) (xs : Cells)
    → IsSound h (pre ++ (l, k) ∷ (p, s) ∷ xs)
    → Frees h p (used (pre ++ (l, k) ∷ []) ++ used xs)
Frees-inside h pre l k p s xs is =
    let done = free-inside h h.heap_start pre l k p s xs is.heap in
    (
      done.0,
      pre ++ release l k p s.length xs,
      done.1,
      (
        record {
          heap =
              subst (λ a. IsHeap done.0 null a (pre ++ release l k p s.length xs))
                (sym done.2.1.heap_start) done.2.0;
          coalesced = Coalesced-release pre l k p s xs is.coalesced;
          ready = done.2.1.heap_initialized ∙ is.ready;
          some_cell = omega (arith, length-append pre (release l k p s.length xs));
        },
        used-append pre (release l k p s.length xs)
            ∙ ap (λ r. used pre ++ r) (used-release l k p s.length xs)
            ∙ sym (append_assoc (used pre) (used ((l, k) ∷ [])) (used xs))
            ∙ ap (λ r. r ++ used xs) (sym (used-append pre ((l, k) ∷ []))),
      ),
    )

-- On a sound heap, `free` of the data of a segment in use returns and leaves a sound heap, in
-- which the segments in use are the same but for that one.
pub free_lem :
    (h : Heap) (pre : Cells) (p : Ptr) (n : ℕ) (xs : Cells)
    → IsSound h (pre ++ (p, segment n false) ∷ xs)
    → Frees h p (used pre ++ used xs)
free_lem h pre p n xs is = elim (snoc-cases pre) [
  | inl e ↦
      subst (λ r. IsSound h (r ++ (p, segment n false) ∷ xs) → Frees h p (used r ++ used xs))
        (sym e) (Frees-first h p (segment n false) xs) is
  | inr (init, l, k, e) ↦
      subst (λ r. IsSound h (r ++ (p, segment n false) ∷ xs) → Frees h p (used r ++ used xs))
        (sym e)
        (λ there.
          Frees-inside h init l k p (segment n false) xs
            (subst (IsSound h) (append-cons init (l, k) ((p, segment n false) ∷ xs)) there))
        is
]
