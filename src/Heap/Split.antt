-- ===== src/Heap/Split.antt =====
-- `header_split`
use skylight.Base.{
  ℕ, ◌+◌, ◌-◌, ◌^◌, ◌≤◌, ◌<◌, ◌≡◌, refl, ◌≢◌, ◌∙◌, ◌⊎◌, inl, inr, true, false, some, [], ◌∷◌, arith,
  ltb, ◌==◌, ==_of_eq, ==_of_ne, Bool-cases, add64, sub64, slt64, slt64_of_le,
}
use skylight.Linked.{Ptr, null, node, write_self, write-ne}
use skylight.Heap.{Segment, segment, header_size, Heap, split_at, header_split}
use skylight.Heap.Layout.{
  Cells, first, IsHeap, Local, Layout-frame, Layout-le, final-le, put, not_null, load-ok,
  set_last-ok, set_next-ok, set_length-ok,
}

-- The outcome of splitting the segment `s` at `p`, the first of the cells from `p` on.
abbrev pub Splits : Heap → Ptr → Ptr → Segment → Cells → ℕ → ℕ → Heap → Type 0
Splits h b p s xs size len g =
    IsHeap g b p ((p, segment size s.free) ∷ (p + header_size + size, segment len s.free) ∷ xs)
    × Local p h g

split_at-last :
    (h : Heap) (b p : Ptr) (s : Segment) (size len : ℕ)
    → IsHeap h b p ((p, s) ∷ [])
    → s.length ≡ size + header_size + len
    → (g : Heap) × (split_at p size len h ≡ some (p + header_size + size, g))
      × Splits h b p s [] size len g
unfolding split_at
split_at-last h b p s size len is fits =
    let here = is.layout.1 in
    let fresh : add64 (add64 p size) header_size ≡ p + header_size + size = omega arith in
    let new : ℕ = p + header_size + size in
    let h1 = put p (node b new s) h in
    let h2 = put new (node p null (segment len s.free)) h1 in
    let h3 = put p (node b new (segment size s.free)) h2 in
    let up : p ≢ new = omega arith in
    let down : new ≢ p = omega arith in
    let still : h2.headers p ≡ some (node b new s) = write-ne _ _ _ up ∙ write_self _ _ _ in
    let was_last : (h.last_header == p) ≡ true = ==_of_eq _ _ is.last in
    (
      record h3 { last_header = new },
      rw (
        fresh,
        load-ok h p is.nonnull here,
        set_next-ok h p is.nonnull here new,
        set_length-ok h2 p is.nonnull still size,
        was_last,
      ),
      (
        record {
          layout =
              (refl, write_self _ _ _, (refl, write-ne _ _ _ down ∙ write_self _ _ _, omega arith));
          last = refl;
          bound = is.bound;
          nonnull = is.nonnull;
        },
        record {
          below = λ a lt.
              let ne : a ≢ p = omega arith in
              let ne' : a ≢ new = omega arith in
              write-ne _ _ _ ne ∙ write-ne _ _ _ ne' ∙ write-ne _ _ _ ne;
          heap_end = refl;
          heap_start = refl;
          heap_initialized = refl;
          calls = refl;
        },
      ),
    )

split_at-inner :
    (h : Heap) (b p : Ptr) (s : Segment) (q : Ptr) (t : Segment) (xs : Cells) (size len : ℕ)
    → IsHeap h b p ((p, s) ∷ (q, t) ∷ xs)
    → s.length ≡ size + header_size + len
    → (g : Heap) × (split_at p size len h ≡ some (p + header_size + size, g))
      × Splits h b p s ((q, t) ∷ xs) size len g
unfolding split_at
split_at-inner h b p s q t xs size len is fits =
    let here = is.layout.1 in
    let there = is.layout.2.1 in
    let end : ℕ = p + header_size + s.length in
    let far = final-le h.headers p end q t xs h.heap_end is.layout.2 in
    let near = Layout-le h.headers p end ((q, t) ∷ xs) h.heap_end is.layout.2 in
    let fresh : add64 (add64 p size) header_size ≡ p + header_size + size = omega arith in
    let new : ℕ = p + header_size + size in
    let h0 = put q (node new (first xs) t) h in
    let h1 = put p (node b new s) h0 in
    let h2 = put new (node p q (segment len s.free)) h1 in
    let h3 = put p (node b new (segment size s.free)) h2 in
    let q_pos : 0 < q = omega arith in
    let p_new : p ≢ new = omega arith in
    let new_p : new ≢ p = omega arith in
    let p_q : p ≢ q = omega arith in
    let q_p : q ≢ p = omega arith in
    let q_new : q ≢ new = omega arith in
    let kept : h0.headers p ≡ some (node b q s) = write-ne _ _ _ p_q ∙ here in
    let still : h2.headers p ≡ some (node b new s) = write-ne _ _ _ p_new ∙ write_self _ _ _ in
    let not_last : (h.last_header == p) ≡ false = ==_of_ne _ _ (omega arith) in
    (
      h3,
      rw (
        fresh,
        load-ok h p is.nonnull here,
        not_null h q q_pos there,
        set_last-ok h q q_pos there new,
        set_next-ok h0 p is.nonnull kept new,
        set_length-ok h2 p is.nonnull still size,
        not_last,
      ),
      (
        record {
          layout = (
            refl,
            write_self _ _ _,
            (
              refl,
              write-ne _ _ _ new_p ∙ write_self _ _ _,
              (
                omega arith,
                write-ne _ _ _ q_p ∙ write-ne _ _ _ q_new ∙ write-ne _ _ _ q_p ∙ write_self _ _ _,
                Layout-frame q (q + header_size + t.length) xs h.heap_end is.layout.2.2 λ a lt.
                    let a_p : a ≢ p = omega arith in
                    let a_q : a ≢ q = omega arith in
                    let a_new : a ≢ new = omega arith in
                    write-ne _ _ _ a_p
                    ∙ write-ne _ _ _ a_new
                    ∙ write-ne _ _ _ a_p
                    ∙ write-ne _ _ _ a_q,
              ),
            ),
          );
          last = is.last;
          bound = is.bound;
          nonnull = is.nonnull;
        },
        record {
          below = λ a lt.
              let a_p : a ≢ p = omega arith in
              let a_q : a ≢ q = omega arith in
              let a_new : a ≢ new = omega arith in
              write-ne _ _ _ a_p ∙ write-ne _ _ _ a_new ∙ write-ne _ _ _ a_p ∙ write-ne _ _ _ a_q;
          heap_end = refl;
          heap_start = refl;
          heap_initialized = refl;
          calls = refl;
        },
      ),
    )

pub split_at_lem :
    (h : Heap) (b p : Ptr) (s : Segment) (xs : Cells) (size len : ℕ)
    → IsHeap h b p ((p, s) ∷ xs)
    → s.length ≡ size + header_size + len
    → (g : Heap) × (split_at p size len h ≡ some (p + header_size + size, g))
      × Splits h b p s xs size len g
split_at_lem h b p s [] size len is fits = split_at-last h b p s size len is fits
split_at_lem h b p s ((q, t) ∷ xs) size len is fits = split_at-inner h b p s q t xs size len is fits

module _ (h : Heap) (b p : Ptr) (s : Segment) (xs : Cells) (size : ℕ)
    (is : IsHeap h b p ((p, s) ∷ xs)) where
  segment_fits : s.length < 2 ^ 63
  segment_fits = omega (
    arith,
    Layout-le h.headers p (p + header_size + s.length) xs h.heap_end is.layout.2,
    is.bound,
  )

  -- A segment of the heap with room for `size` bytes, another header and 16 bytes more is split in
  -- two, where `size` is at least 16: the first part keeps `size` bytes, the second has the rest,
  -- both are free or in use as the whole was, and nothing before them changes.
  pub header_split-Splits :
      16 ≤ size
      → size + 48 ≤ s.length
      → (g : Heap) × (header_split p size h ≡ some (p + header_size + size, g))
        × Splits h b p s xs size (s.length - size - header_size) g
  unfolding header_split
  header_split-Splits large room =
      let fits = segment_fits in
      let len : sub64 (sub64 s.length size) header_size ≡ s.length - size - header_size =
        omega arith in
      let big : ltb size 16 ≡ false = ground arith in
      let rest : slt64 (s.length - size - header_size) 16 ≡ false =
        slt64_of_le (s.length - size - header_size) 16 (omega arith) (omega arith) in
      rw (big, load-ok h p is.nonnull is.layout.1, len, rest)
        (split_at_lem h b p s xs size (s.length - size - header_size) is (omega arith))

  -- Where `size` is below 16, or the segment has no room for `size` bytes, another header and 16
  -- bytes, and `size` is below `2 ^ 62`, `header_split` returns `NULL` and changes nothing.
  pub header_split-null :
      (size < 16) ⊎ (s.length < size + 48) → size < 2 ^ 62 → header_split p size h ≡ some (null, h)
  unfolding header_split
  header_split-null (inl small) limit = let little : ltb size 16 ≡ true = ground arith in rw little
  header_split-null (inr small) limit = elim (Bool-cases (ltb size 16)) [
    | inl little ↦ rw little
    | inr big ↦
        let fits = segment_fits in
        let rest : slt64 (sub64 (sub64 s.length size) header_size) 16 ≡ true = ground arith in
        rw (big, load-ok h p is.nonnull is.layout.1, rest)
  ]
