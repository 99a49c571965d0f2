-- ===== src/Heap/Expand.antt =====
-- `heap_expand`
use skylight.Base.{
  ℕ, ◌+◌, ◌/◌, ◌^◌, ◌≤◌, ◌<◌, ◌≡◌, ◌∙◌, ◌≢◌, refl, ap, true, some, [], ◌∷◌, arith, ◌%◌, ◌-◌, inl,
  inr, Bool-cases, ◌==◌, add64, mul64, sub64,
}
use skylight.Linked.{Ptr, null, node, write_self, write-ne}
use skylight.Heap.{
  Segment, segment, header_size, Heap, map_pages, round_page, heap_expand, set_next,
  header_combine_backward,
}
use skylight.Heap.Layout.{Cells, IsHeap, put, set_next-ok}
use skylight.Heap.Merge.{join_back, header_combine_backward_lem}

-- `round_page` rounds up to the next multiple of the page size.
pub round_page_lem :
    (n : ℕ)
    → n < 2 ^ 63
    → (n ≤ round_page n) × (round_page n < n + 0x1000) × (round_page n % 0x1000 ≡ 0)
round_page_lem n h = elim (Bool-cases (n % 0x1000 == 0)) [
  | inl whole ↦ rw whole (ground arith)
  | inr part ↦ rw part (ground arith)
]

-- Growing the last segment `k` of the heap by `len` bytes: they become a free segment, which is
-- joined to `k` where `k` is free.
abbrev pub grown : Ptr → Segment → Ptr → ℕ → Cells
grown l k end len = join_back l k ((end, segment (len - header_size) true) ∷ [])

pub expand_at :
    (h : Heap) (b l : Ptr) (k : Segment) (size len : ℕ)
    → IsHeap h b l ((l, k) ∷ [])
    → round_page size ≡ len
    → len % 0x1000 ≡ 0
    → 0 < len
    → h.heap_end + len < 2 ^ 63
    → (g : Heap) × (heap_expand size h ≡ some (tt, g))
      × (IsHeap g b l (grown l k h.heap_end len)
          × ((c : Ptr) → c < l → g.headers c ≡ h.headers c)
          × (g.heap_end ≡ h.heap_end + len)
          × (g.heap_start ≡ h.heap_start)
          × (g.heap_initialized ≡ h.heap_initialized)
          × (g.calls ≡ map_pages (len / 0x1000) h.heap_end h.calls))
unfolding heap_expand
expand_at h b l k size len is rounded whole pos room =
    let e : ℕ = h.heap_end in
    let l_e : l ≢ e = omega (arith, is.layout.2) in
    let end : add64 e (mul64 (len / 0x1000) 0x1000) ≡ e + len = omega arith in
    let rest : sub64 len header_size ≡ len - header_size = omega arith in
    let h0 = record h { heap_end = e + len; calls = map_pages (len / 0x1000) e h.calls } in
    let h1 = put l (node b e k) h0 in
    let h2 = put e (node h.last_header null (segment (len - header_size) true)) h1 in
    let linked : set_next h.last_header e h0 ≡ some (tt, h1) =
      ap (λ x. set_next x e h0) is.last ∙ set_next-ok h0 l is.nonnull is.layout.1 e in
    let h3 = record h2 { last_header = e } in
    let run : heap_expand size h ≡ header_combine_backward e h3 = rw (rounded, end, linked, rest) in
    let two : IsHeap h3 b l ((l, k) ∷ (e, segment (len - header_size) true) ∷ []) = record {
      layout = (
        refl,
        write-ne _ _ _ l_e ∙ write_self _ _ _,
        (
          omega (arith, is.layout.2),
          write_self _ _ _
              ∙ ap (λ x. some (node x null (segment (len - header_size) true))) is.last,
          omega arith,
        ),
      );
      last = refl;
      bound = room;
      nonnull = is.nonnull;
    } in
    let back = header_combine_backward_lem h3 b l k e (segment (len - header_size) true) [] two in
    (
      back.0,
      run ∙ back.1,
      (
        back.2.0,
        λ c lt.
            let c_l : c ≢ l = omega arith in
            let c_e : c ≢ e = omega (arith, is.layout.2) in
            back.2.1.below c lt ∙ write-ne _ _ _ c_e ∙ write-ne _ _ _ c_l,
        back.2.1.heap_end,
        back.2.1.heap_start,
        back.2.1.heap_initialized,
        back.2.1.calls,
      ),
    )
