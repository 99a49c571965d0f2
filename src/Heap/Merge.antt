-- ===== src/Heap/Merge.antt =====
-- `header_combine_forward` and `header_combine_backward`
use skylight.Base.{
  ℕ, ◌+◌, ◌<◌, ◌≡◌, refl, sym, ◌≢◌, ◌∙◌, inl, inr, Bool, true, false, some, [], ◌∷◌, arith,
  ==_of_eq, ==_of_ne, Bool-cases, add64, if◌then◌else◌,
}
use skylight.Linked.{Ptr, null, node, write_self, write-ne}
use skylight.Heap.{
  Segment, segment, header_size, Heap, absorb_next, header_combine_forward, header_combine_backward,
}
use skylight.Heap.Layout.{
  Cells, first, IsHeap, Local, Layout-frame, Layout-le, final-le, put, not_null, load-ok,
  set_last-ok, set_next-ok, set_length-ok,
}

-- Two neighbouring segments as one, header of the second included.
abbrev pub joined : Segment → Segment → Segment
joined s t = segment (s.length + t.length + header_size) s.free

absorb_next-last :
    (h : Heap) (b p : Ptr) (s : Segment) (q : Ptr) (t : Segment)
    → IsHeap h b p ((p, s) ∷ (q, t) ∷ [])
    → (g : Heap) × (absorb_next p h ≡ some (tt, g))
      × (IsHeap g b p ((p, joined s t) ∷ []) × Local p h g)
unfolding absorb_next
absorb_next-last h b p s q t is =
    let here = is.layout.1 in
    let there = is.layout.2.1 in
    let sum : add64 (add64 s.length t.length) header_size ≡ s.length + t.length + header_size =
      omega (arith, is.bound, is.layout.2.2) in
    let q_pos : 0 < q = omega arith in
    let p_q : p ≢ q = omega arith in
    let h0 = record h { last_header = p } in
    let h1 = put p (node b q (joined s t)) h0 in
    let h2 = put p (node b null (joined s t)) h1 in
    (
      h2,
      rw (
        load-ok h p is.nonnull here,
        ==_of_eq q h.last_header (sym is.last),
        load-ok h0 q q_pos there,
        sum,
        set_length-ok h0 p is.nonnull here (s.length + t.length + header_size),
        set_next-ok h1 p is.nonnull (write_self _ _ _) null,
      ),
      (
        record {
          layout = (refl, write_self _ _ _, omega arith);
          last = refl;
          bound = is.bound;
          nonnull = is.nonnull;
        },
        record {
          below = λ a lt. let a_p : a ≢ p = omega arith in write-ne _ _ _ a_p ∙ write-ne _ _ _ a_p;
          heap_end = refl;
          heap_start = refl;
          heap_initialized = refl;
          calls = refl;
        },
      ),
    )

absorb_next-inner :
    (h : Heap) (b p : Ptr) (s : Segment) (q : Ptr) (t : Segment) (r : Ptr) (u : Segment)
    (xs : Cells)
    → IsHeap h b p ((p, s) ∷ (q, t) ∷ (r, u) ∷ xs)
    → (g : Heap) × (absorb_next p h ≡ some (tt, g))
      × (IsHeap g b p ((p, joined s t) ∷ (r, u) ∷ xs) × Local p h g)
unfolding absorb_next
absorb_next-inner h b p s q t r u xs is =
    let here = is.layout.1 in
    let there = is.layout.2.1 in
    let beyond = is.layout.2.2.1 in
    let end : ℕ = q + header_size + t.length in
    let far = final-le h.headers q end r u xs h.heap_end is.layout.2.2 in
    let near = Layout-le h.headers q end ((r, u) ∷ xs) h.heap_end is.layout.2.2 in
    let q_pos : 0 < q = omega arith in
    let r_pos : 0 < r = omega arith in
    let p_r : p ≢ r = omega arith in
    let r_p : r ≢ p = omega arith in
    let sum : add64 (add64 s.length t.length) header_size ≡ s.length + t.length + header_size =
      omega (arith, is.bound, near) in
    let h0 = put r (node p (first xs) u) h in
    let h1 = put p (node b q (joined s t)) h0 in
    let h2 = put p (node b r (joined s t)) h1 in
    let kept : h0.headers p ≡ some (node b q s) = write-ne _ _ _ p_r ∙ here in
    (
      h2,
      rw (
        load-ok h p is.nonnull here,
        ==_of_ne q h.last_header (omega arith),
        load-ok h q q_pos there,
        not_null h r r_pos beyond,
        set_last-ok h r r_pos beyond p,
        sum,
        set_length-ok h0 p is.nonnull kept (s.length + t.length + header_size),
        set_next-ok h1 p is.nonnull (write_self _ _ _) r,
      ),
      (
        record {
          layout = (
            refl,
            write_self _ _ _,
            (
              omega arith,
              write-ne _ _ _ r_p ∙ write-ne _ _ _ r_p ∙ write_self _ _ _,
              Layout-frame r (r + header_size + u.length) xs h.heap_end is.layout.2.2.2 λ a lt.
                  let a_p : a ≢ p = omega arith in
                  let a_r : a ≢ r = omega arith in
                  write-ne _ _ _ a_p ∙ write-ne _ _ _ a_p ∙ write-ne _ _ _ a_r,
            ),
          );
          last = is.last;
          bound = is.bound;
          nonnull = is.nonnull;
        },
        record {
          below = λ a lt.
              let a_p : a ≢ p = omega arith in
              let a_r : a ≢ r = omega arith in
              write-ne _ _ _ a_p ∙ write-ne _ _ _ a_p ∙ write-ne _ _ _ a_r;
          heap_end = refl;
          heap_start = refl;
          heap_initialized = refl;
          calls = refl;
        },
      ),
    )

absorb_next_lem :
    (h : Heap) (b p : Ptr) (s : Segment) (q : Ptr) (t : Segment) (xs : Cells)
    → IsHeap h b p ((p, s) ∷ (q, t) ∷ xs)
    → (g : Heap) × (absorb_next p h ≡ some (tt, g))
      × (IsHeap g b p ((p, joined s t) ∷ xs) × Local p h g)
absorb_next_lem h b p s q t [] is = absorb_next-last h b p s q t is
absorb_next_lem h b p s q t ((r, u) ∷ xs) is = absorb_next-inner h b p s q t r u xs is

-- What `header_combine_forward` makes of the cells from a segment on.
abbrev pub join_next : Ptr → Segment → Cells → Cells
join_next p s [] = (p, s) ∷ []
join_next p s ((q, t) ∷ xs) = if t.free then (p, joined s t) ∷ xs else (p, s) ∷ (q, t) ∷ xs

-- What `header_combine_backward` makes of the cells from the segment before on.
abbrev pub join_back : Ptr → Segment → Cells → Cells
join_back l k xs = if k.free then join_next l k xs else (l, k) ∷ xs

pub Local-refl : (lo : ℕ) (h : Heap) → Local lo h h
Local-refl lo h = record {
  below = λ a lt. refl;
  heap_end = refl;
  heap_start = refl;
  heap_initialized = refl;
  calls = refl;
}

-- At a segment of the heap, `header_combine_forward` returns; where the next segment is free it is
-- joined to the segment, which gains its length and its header, else the segments stay as they
-- are; nothing before the segment changes.
pub header_combine_forward_lem :
    (h : Heap) (b p : Ptr) (s : Segment) (xs : Cells)
    → IsHeap h b p ((p, s) ∷ xs)
    → (g : Heap) × (header_combine_forward p h ≡ some (tt, g))
      × (IsHeap g b p (join_next p s xs) × Local p h g)
unfolding header_combine_forward
header_combine_forward_lem h b p s [] is =
    (h, rw (load-ok h p is.nonnull is.layout.1), (is, Local-refl p h))
header_combine_forward_lem h b p s ((q, t) ∷ xs) is =
    let q_pos : 0 < q = omega arith in
    rw
      (
        load-ok h p is.nonnull is.layout.1,
        not_null h q q_pos is.layout.2.1,
        load-ok h q q_pos is.layout.2.1,
      )
      (elim (Bool-cases t.free) [
        | inl free ↦ simp free (absorb_next_lem h b p s q t xs is)
        | inr used ↦ simp used (h, refl, (is, Local-refl p h))
      ])

-- `header_combine_backward` at the segment behind the one at `l`, of length `n`.
header_combine_backward-flag :
    (h : Heap) (b l : Ptr) (n : ℕ) (f : Bool) (p : Ptr) (s : Segment) (xs : Cells)
    → IsHeap h b l ((l, segment n f) ∷ (p, s) ∷ xs)
    → (g : Heap) × (header_combine_backward p h ≡ some (tt, g))
      × (IsHeap g b l (join_back l (segment n f) ((p, s) ∷ xs)) × Local l h g)
unfolding header_combine_backward
header_combine_backward-flag h b l n true p s xs is =
    let p_pos : 0 < p = omega arith in
    rw
      (
        load-ok h p p_pos is.layout.2.1,
        not_null h l is.nonnull is.layout.1,
        load-ok h l is.nonnull is.layout.1,
      )
      (header_combine_forward_lem h b l (segment n true) ((p, s) ∷ xs) is)
header_combine_backward-flag h b l n false p s xs is =
    let p_pos : 0 < p = omega arith in
    rw
      (
        load-ok h p p_pos is.layout.2.1,
        not_null h l is.nonnull is.layout.1,
        load-ok h l is.nonnull is.layout.1,
      )
      (h, refl, (is, Local-refl l h))

-- At a segment with another before it, `header_combine_backward` returns; where the segment before
-- is free, the segments joined are the ones that `header_combine_forward` joins there, else they
-- stay as they are; nothing before the two changes.
pub header_combine_backward_lem :
    (h : Heap) (b l : Ptr) (k : Segment) (p : Ptr) (s : Segment) (xs : Cells)
    → IsHeap h b l ((l, k) ∷ (p, s) ∷ xs)
    → (g : Heap) × (header_combine_backward p h ≡ some (tt, g))
      × (IsHeap g b l (join_back l k ((p, s) ∷ xs)) × Local l h g)
header_combine_backward_lem h b l k p s xs is =
    header_combine_backward-flag h b l k.length k.free p s xs is

-- At the first segment of the heap it does nothing.
pub header_combine_backward-first :
    (h : Heap) (p : Ptr) (s : Segment) (xs : Cells)
    → IsHeap h null p ((p, s) ∷ xs)
    → header_combine_backward p h ≡ some (tt, h)
unfolding header_combine_backward
header_combine_backward-first h p s xs is = rw (load-ok h p is.nonnull is.layout.1)
