-- ===== src/Heap/Search.antt =====
-- The search loop of `malloc`, round by round.
use mathlib.Core.Path.{subst}
use skylight.Base.{
  ℕ, zero, suc, ◌+◌, ◌^◌, ◌≤◌, ◌<◌, ◌≡◌, refl, inl, inr, Bool, true, false, none, some, [], ◌∷◌,
  arith, leb, Bool-cases, length,
}
use skylight.Linked.{Ptr, node}
use skylight.Heap.{Segment, segment, header_size, Heap, try_segment, search_from}
use skylight.Heap.Layout.{Cells, first, IsHeap, not_null, load-ok}
use skylight.Heap.FirstFit.{behind, first_fit, first_fit-Fit}
use skylight.Heap.Give.{Found, Found-behind, try_segment-fits, try_segment-small, try_segment-used}

-- What the search from the cells behind a segment at `p` comes to, `rounds` being left for it.
abbrev pub Rest : ℕ → ℕ → Heap → Ptr → ℕ → Cells → Type 0
Rest size rounds h p end [] = Unit
Rest size rounds h p end ((q, t) ∷ xs) =
    Found h p end (first_fit size ((q, t) ∷ xs)) (search_from rounds q size h)

module _ (size : ℕ) (large : 16 ≤ size) (limit : size < 2 ^ 62) where
  -- The rounds behind a segment that is passed over.
  search_on :
      (rounds : ℕ) (h : Heap) (b p : Ptr) (s : Segment) (xs : Cells)
      → IsHeap h b p ((p, s) ∷ xs)
      → try_segment p (node b (first xs) s) size h ≡ some (none, h)
      → Rest size rounds h p (p + header_size + s.length) xs
      → Found h b p (behind (p, s) (first_fit size xs)) (search_from (suc rounds) p size h)
  unfolding search_from
  search_on rounds h b p s [] is pass rest = rw (load-ok h p is.nonnull is.layout.1, pass)
  search_on rounds h b p s ((q, t) ∷ xs) is pass rest =
      let q_pos : 0 < q = omega arith in
      rw (load-ok h p is.nonnull is.layout.1, pass, not_null h q q_pos is.layout.2.1)
        (Found-behind h b p s q t xs size (first_fit size ((q, t) ∷ xs))
          (search_from rounds q size h) is (first_fit-Fit size ((q, t) ∷ xs)) rest)

  search_step :
      (rounds : ℕ) (h : Heap) (b p : Ptr) (n : ℕ) (f : Bool) (xs : Cells)
      → IsHeap h b p ((p, segment n f) ∷ xs)
      → Rest size rounds h p (p + header_size + n) xs
      → Found h b p (first_fit size ((p, segment n f) ∷ xs)) (search_from (suc rounds) p size h)
  unfolding search_from
  search_step rounds h b p n false xs is rest =
      search_on rounds h b p (segment n false) xs is (try_segment-used h b p n xs size) rest
  search_step rounds h b p n true xs is rest = elim (Bool-cases (leb size n)) [
    | inl fit ↦
        let given = try_segment-fits h b p n xs size is large limit (ground arith) in
        rw (load-ok h p is.nonnull is.layout.1, fit, given.1)
          (given.0, refl, (given.2.0, given.2.1))
    | inr small ↦ rw small (
        search_on rounds h b p (segment n true) xs is
          (try_segment-small h b p n xs size is (ground arith)) rest)
  ]

  search_at :
      (rounds : ℕ) (h : Heap) (b a p : Ptr) (s : Segment) (xs : Cells)
      → IsHeap h b a ((p, s) ∷ xs)
      → Rest size rounds h p (p + header_size + s.length) xs
      → Found h b a (first_fit size ((p, s) ∷ xs)) (search_from (suc rounds) p size h)
  search_at rounds h b a p s xs is rest =
      subst (λ c. Found h b c (first_fit size ((p, s) ∷ xs)) (search_from (suc rounds) p size h))
        is.layout.0
        (search_step rounds h b p s.length s.free xs
          (record {
            layout = (refl, is.layout.1, is.layout.2);
            last = is.last;
            bound = is.bound;
            nonnull = omega (arith, is.nonnull, is.layout.0);
          })
          rest)

  -- For a size of at least 16 bytes below `2 ^ 62`, the search loop of `malloc` from a segment of
  -- the heap on, given a round for each segment left, does what `first_fit` does on the list of
  -- segments: it returns the same address and leaves the same segments, or returns nothing and
  -- changes nothing where `first_fit` finds none.
  pub search_from-Found :
      (rounds : ℕ) (h : Heap) (b a p : Ptr) (s : Segment) (xs : Cells)
      → IsHeap h b a ((p, s) ∷ xs)
      → length xs < rounds
      → Found h b a (first_fit size ((p, s) ∷ xs)) (search_from rounds p size h)
  search_from-Found zero h b a p s xs is few = absurd (omega arith)
  search_from-Found (suc rounds) h b a p s [] is few = search_at rounds h b a p s [] is tt
  search_from-Found (suc rounds) h b a p s ((q, t) ∷ xs) is few =
      search_at rounds h b a p s ((q, t) ∷ xs) is (
        search_from-Found rounds h p (p + header_size + s.length) q t xs
          (record {
            layout = is.layout.2;
            last = is.last;
            bound = is.bound;
            nonnull = omega (arith, is.nonnull, is.layout.0);
          })
          (omega arith))
