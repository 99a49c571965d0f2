-- ===== src/Heap/Grow.antt =====
-- `heap_expand` on the whole heap, which keeps the invariant and the segments in use.
use mathlib.Core.Path.{subst}
use skylight.Base.{
  ℕ, ◌+◌, ◌-◌, ◌^◌, ◌≤◌, ◌<◌, ◌≡◌, ◌∙◌, refl, sym, Bool, true, false, Option, some, [], ◌∷◌, ◌++◌,
  arith, if◌then◌else◌, length, length-append,
}
use skylight.Linked.{Ptr, null}
use skylight.Heap.{Segment, segment, header_size, Heap, heap_expand, round_page}
use skylight.Heap.Layout.{Cells, final, IsHeap}
use skylight.Heap.Merge.{joined}
use skylight.Heap.FirstFit.{used}
use skylight.Heap.Focus.{inner, outer}
use skylight.Heap.Expand.{expand_at, round_page_lem}
use skylight.Heap.Coalesce.{used-append, Coalesced-replace}
use skylight.Heap.Sound.{IsSound, append-cons, length-snoc}

-- The segment that ends the heap after it grew by `len` bytes.
abbrev pub gain : Segment → ℕ → ℕ
gain k len = if k.free then k.length + len else len - header_size

-- A heap whose last segment is free, `m` bytes long.
abbrev pub EndsFree : ℕ → Cells → Type 0
EndsFree m ys = (pre : Cells) × (l : Ptr) × (ys ≡ pre ++ (l, segment m true) ∷ [])

-- What growing the heap by `len` bytes comes to.
abbrev pub Grows : Heap → Cells → Segment → ℕ → Option (Unit {0} × Heap) → Type 0
Grows h xs k len run =
    (g : Heap) × (ys : Cells) × (run ≡ some (tt, g))
    × (IsSound g ys
        × (used ys ≡ used xs)
        × (g.heap_end ≡ h.heap_end + len)
        × (length ys ≤ length xs + 1)
        × EndsFree (gain k len) ys)

Grows-joined :
    (h g : Heap) (pre : Cells) (l : Ptr) (n len : ℕ) (run : Option (Unit {0} × Heap))
    → IsSound h (pre ++ (l, segment n true) ∷ [])
    → header_size ≤ len
    → run ≡ some (tt, g)
    → IsHeap g
        (final null pre)
        l
        ((l, joined (segment n true) (segment (len - header_size) true)) ∷ [])
    → ((c : Ptr) → c < l → g.headers c ≡ h.headers c)
    → g.heap_end ≡ h.heap_end + len
    → g.heap_start ≡ h.heap_start
    → g.heap_initialized ≡ h.heap_initialized
    → Grows h (pre ++ (l, segment n true) ∷ []) (segment n true) len run
Grows-joined h g pre l n len run is big e new below end start init =
    let sum : n + (len - header_size) + header_size ≡ n + len = omega arith in
    (
      g,
      pre ++ (l, segment (n + (len - header_size) + header_size) true) ∷ [],
      e,
      (
        record {
          heap =
              subst
                (λ a.
                  IsHeap g null a
                    (pre ++ (l, segment (n + (len - header_size) + header_size) true) ∷ []))
                (sym start)
                (outer h g null h.heap_start pre l (segment n true)
                  (segment (n + (len - header_size) + header_size) true) [] [] is.heap new below);
          coalesced =
              Coalesced-replace pre l (segment n true)
                (segment (n + (len - header_size) + header_size) true) [] [] is.coalesced refl
                (refl, tt);
          ready = init ∙ is.ready;
          some_cell = length-snoc pre (l, segment (n + (len - header_size) + header_size) true) [];
        },
        used-append pre _ ∙ sym (used-append pre _),
        end,
        omega (
          arith,
          length-append pre ((l, segment n true) ∷ []),
          length-append pre ((l, segment (n + (len - header_size) + header_size) true) ∷ []),
        ),
        (pre, l, rw sum),
      ),
    )

Grows-added :
    (h g : Heap) (pre : Cells) (l : Ptr) (n len : ℕ) (run : Option (Unit {0} × Heap))
    → IsSound h (pre ++ (l, segment n false) ∷ [])
    → run ≡ some (tt, g)
    → IsHeap g
        (final null pre)
        l
        ((l, segment n false) ∷ (h.heap_end, segment (len - header_size) true) ∷ [])
    → ((c : Ptr) → c < l → g.headers c ≡ h.headers c)
    → g.heap_end ≡ h.heap_end + len
    → g.heap_start ≡ h.heap_start
    → g.heap_initialized ≡ h.heap_initialized
    → Grows h (pre ++ (l, segment n false) ∷ []) (segment n false) len run
Grows-added h g pre l n len run is e new below end start init =
    let last : Cells = (h.heap_end, segment (len - header_size) true) ∷ [] in
    (
      g,
      pre ++ (l, segment n false) ∷ last,
      e,
      (
        record {
          heap =
              subst (λ a. IsHeap g null a (pre ++ (l, segment n false) ∷ last)) (sym start)
                (outer h g null h.heap_start pre l (segment n false) (segment n false) [] last
                  is.heap new below);
          coalesced =
              Coalesced-replace pre l (segment n false) (segment n false) [] last is.coalesced refl
                (refl, (refl, tt));
          ready = init ∙ is.ready;
          some_cell = length-snoc pre (l, segment n false) last;
        },
        used-append pre _ ∙ sym (used-append pre _),
        end,
        omega (
          arith,
          length-append pre ((l, segment n false) ∷ []),
          length-append pre ((l, segment n false) ∷ last),
        ),
        (
          pre ++ (l, segment n false) ∷ [],
          h.heap_end,
          sym (append-cons pre (l, segment n false) last),
        ),
      ),
    )

-- On a sound heap whose end, the size and 0x1000 add up to less than `2 ^ 63`, `heap_expand` of a
-- positive size returns and leaves a sound heap with the same segments in use. Its end has moved
-- by the size rounded up to pages, there is at most one segment more, and the last segment is free
-- and holds the new memory, joined with the old last segment where that one was free.
pub heap_expand_lem :
    (h : Heap) (pre : Cells) (l : Ptr) (n : ℕ) (f : Bool) (size : ℕ)
    → IsSound h (pre ++ (l, segment n f) ∷ [])
    → 0 < size
    → h.heap_end + size + 0x1000 < 2 ^ 63
    → Grows h (pre ++ (l, segment n f) ∷ []) (segment n f) (round_page size) (heap_expand size h)
heap_expand_lem h pre l n true size is pos room =
    let r = round_page_lem size (omega arith) in
    let here = inner h null h.heap_start pre l (segment n true) [] is.heap in
    let done =
      expand_at h (final null pre) l (segment n true) size (round_page size) here refl r.2
        (omega (arith, r.0)) (omega (arith, r.1)) in
    Grows-joined h done.0 pre l n (round_page size) (heap_expand size h) is
      (omega (arith, r.0, r.2)) done.1 done.2.0 done.2.1 done.2.2 done.2.3 done.2.4
heap_expand_lem h pre l n false size is pos room =
    let r = round_page_lem size (omega arith) in
    let here = inner h null h.heap_start pre l (segment n false) [] is.heap in
    let done =
      expand_at h (final null pre) l (segment n false) size (round_page size) here refl r.2
        (omega (arith, r.0)) (omega (arith, r.1)) in
    Grows-added h done.0 pre l n (round_page size) (heap_expand size h) is done.1 done.2.0 done.2.1
      done.2.2 done.2.3 done.2.4
