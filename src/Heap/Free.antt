-- ===== src/Heap/Free.antt =====
-- `free`: the segment is joined with its free neighbours, and no other is touched.
use skylight.Base.{
  ℕ, ◌+◌, ◌≤◌, ◌≡◌, ◌&&◌, ◌∙◌, refl, Bool, true, false, some, [], ◌∷◌, ◌++◌, arith, if◌then◌else◌,
}
use skylight.Linked.{Ptr, null}
use skylight.Heap
use skylight.Heap.{
  Segment, segment, header_size, Heap, header_of, header_combine_forward, header_combine_backward,
}
use skylight.Heap.Layout.{Cells, final, IsHeap, Local, Layout-le}
use skylight.Heap.Merge.{
  joined, join_next, join_back, header_combine_forward_lem, header_combine_backward_lem,
  header_combine_backward-first,
}
use skylight.Heap.Give.{set_free_lem, Local-trans, Local-zero}
use skylight.Heap.Focus.{inner, inner-le, outer}

-- The segment at `p` freed and joined with the next, as one segment and the ones behind it.
abbrev pub freed : ℕ → Cells → Segment
freed n [] = segment n true
freed n ((q, t) ∷ xs) = if t.free then joined (segment n true) t else segment n true

abbrev pub freed_rest : Cells → Cells
freed_rest [] = []
freed_rest ((q, t) ∷ xs) = if t.free then xs else (q, t) ∷ xs

pub join_next-freed :
    (p : Ptr) (n : ℕ) (xs : Cells)
    → join_next p (segment n true) xs ≡ (p, freed n xs) ∷ freed_rest xs
join_next-freed p n [] = refl
join_next-freed p n ((q, t) ∷ xs) = step t.length t.free
  where
    step :
        (m : ℕ) (f : Bool)
        → join_next p (segment n true) ((q, segment m f) ∷ xs)
          ≡ (p, freed n ((q, segment m f) ∷ xs)) ∷ freed_rest ((q, segment m f) ∷ xs)
    step m true = refl
    step m false = refl

-- Freeing the first segment of the heap.
pub free-first :
    (h : Heap) (p : Ptr) (s : Segment) (xs : Cells)
    → IsHeap h null p ((p, s) ∷ xs)
    → (g : Heap) × (Heap.free (p + header_size) h ≡ some (tt, g))
      × (IsHeap g null p ((p, freed s.length xs) ∷ freed_rest xs) × Local 0 h g)
unfolding Heap.free
free-first h p s xs is =
    let end = Layout-le h.headers p (p + header_size + s.length) xs h.heap_end is.layout.2 in
    let at : header_of (p + header_size) ≡ p = omega (arith, end, is.bound) in
    let marked = set_free_lem h null p s true xs is in
    let ahead = header_combine_forward_lem marked.0 null p (segment s.length true) xs marked.2.0 in
    let whole : IsHeap ahead.0 null p ((p, freed s.length xs) ∷ freed_rest xs) =
      rw (← join_next-freed p s.length xs) ahead.2.0 in
    (
      ahead.0,
      rw (at, marked.1, ahead.1)
          (header_combine_backward-first ahead.0 p (freed s.length xs) (freed_rest xs) whole),
      (whole, Local-zero (Local-trans marked.2.1 ahead.2.1)),
    )

-- A segment behind `k` that is `t`, joined backward: the segment that `l` holds, and the others.
abbrev pub backed : Segment → Segment → Segment
backed k t = if k.free && t.free then joined k t else k

abbrev pub backed_rest : Segment → Ptr → Segment → Cells → Cells
backed_rest k q t xs = if k.free && t.free then xs else (q, t) ∷ xs

backed_lem :
    (l : Ptr) (n : ℕ) (f : Bool) (q : Ptr) (m : ℕ) (f' : Bool) (xs : Cells)
    → join_back l (segment n f) ((q, segment m f') ∷ xs)
      ≡ (l, backed (segment n f) (segment m f')) ∷ backed_rest (segment n f) q (segment m f') xs
backed_lem l n true q m true xs = refl
backed_lem l n true q m false xs = refl
backed_lem l n false q m f' xs = refl

join_back-backed :
    (l : Ptr) (k : Segment) (q : Ptr) (t : Segment) (xs : Cells)
    → join_back l k ((q, t) ∷ xs) ≡ (l, backed k t) ∷ backed_rest k q t xs
join_back-backed l k q t xs = backed_lem l k.length k.free q t.length t.free xs

-- The segments from `l` on after the one at `p` behind it is freed.
abbrev pub release : Ptr → Segment → Ptr → ℕ → Cells → Cells
release l k p n xs = (l, backed k (freed n xs)) ∷ backed_rest k p (freed n xs) (freed_rest xs)

-- Freeing a segment behind the one at `l`.
free-behind :
    (h : Heap) (b l : Ptr) (k : Segment) (p : Ptr) (s : Segment) (xs : Cells)
    → IsHeap h b l ((l, k) ∷ (p, s) ∷ xs)
    → (g : Heap) × (Heap.free (p + header_size) h ≡ some (tt, g))
      × (IsHeap g b l (release l k p s.length xs) × Local l h g)
unfolding Heap.free
free-behind h b l k p s xs is =
    let here : IsHeap h l p ((p, s) ∷ xs) = inner h b l ((l, k) ∷ []) p s xs is in
    let end = Layout-le h.headers p (p + header_size + s.length) xs h.heap_end here.layout.2 in
    let at : header_of (p + header_size) ≡ p = omega (arith, end, is.bound) in
    let l_p : l ≤ p = inner-le h b l ((l, k) ∷ []) p s xs is in
    let marked = set_free_lem h l p s true xs here in
    let ahead = header_combine_forward_lem marked.0 l p (segment s.length true) xs marked.2.0 in
    let same = Local-trans marked.2.1 ahead.2.1 in
    let whole : IsHeap ahead.0 l p ((p, freed s.length xs) ∷ freed_rest xs) =
      rw (← join_next-freed p s.length xs) ahead.2.0 in
    let both : IsHeap ahead.0 b l ((l, k) ∷ (p, freed s.length xs) ∷ freed_rest xs) =
      outer h ahead.0 b l ((l, k) ∷ []) p s (freed s.length xs) xs (freed_rest xs) is whole
        same.below in
    let back =
      header_combine_backward_lem ahead.0 b l k p (freed s.length xs) (freed_rest xs) both in
    (
      back.0,
      rw (at, marked.1, ahead.1) back.1,
      (
        rw (← join_back-backed l k p (freed s.length xs) (freed_rest xs)) back.2.0,
        record {
          below = λ c lt. back.2.1.below c lt ∙ same.below c (omega arith);
          heap_end = back.2.1.heap_end ∙ same.heap_end;
          heap_start = back.2.1.heap_start ∙ same.heap_start;
          heap_initialized = back.2.1.heap_initialized ∙ same.heap_initialized;
          calls = back.2.1.calls ∙ same.calls;
        },
      ),
    )

pub free-inside :
    (h : Heap) (a : Ptr) (pre : Cells) (l : Ptr) (k : Segment) (p : Ptr) (s : Segment) (xs : Cells)
    → IsHeap h null a (pre ++ (l, k) ∷ (p, s) ∷ xs)
    → (g : Heap) × (Heap.free (p + header_size) h ≡ some (tt, g))
      × (IsHeap g null a (pre ++ release l k p s.length xs) × Local 0 h g)
free-inside h a pre l k p s xs is =
    let here = inner h null a pre l k ((p, s) ∷ xs) is in
    let done = free-behind h (final null pre) l k p s xs here in
    (
      done.0,
      done.1,
      (
        outer h done.0 null a pre l k (backed k (freed s.length xs)) ((p, s) ∷ xs)
            (backed_rest k p (freed s.length xs) (freed_rest xs)) is done.2.0 done.2.1.below,
        Local-zero done.2.1,
      ),
    )
