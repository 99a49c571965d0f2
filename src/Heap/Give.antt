-- ===== src/Heap/Give.antt =====
-- What the search loop of `malloc` does with one segment.
use skylight.Base.{
  ℕ, ◌+◌, ◌-◌, ◌^◌, ◌≤◌, ◌<◌, ◌≡◌, refl, ◌∙◌, inl, inr, Bool, true, false, Option, none, some, ◌∷◌,
  arith, leb, ltb, ◌==◌, Bool-cases, add64, ◌≢◌,
}
use native.Mathlib.Decide.{dec_le}
use skylight.Linked.{Ptr, node, write_self, write-ne}
use skylight.Heap.{Segment, segment, header_size, Heap, set_free, try_segment}
use skylight.Heap.Layout.{Cells, first, IsHeap, Local, Layout-frame, Layout-le, put, set_free-ok}
use skylight.Heap.Split.{header_split-Splits, header_split-null}
use skylight.Heap.FirstFit.{carve, behind, Fit}

pub Local-trans : {lo : ℕ} {f g h : Heap} → Local lo f g → Local lo g h → Local lo f h
Local-trans p q = record {
  below = λ a lt. q.below a lt ∙ p.below a lt;
  heap_end = q.heap_end ∙ p.heap_end;
  heap_start = q.heap_start ∙ p.heap_start;
  heap_initialized = q.heap_initialized ∙ p.heap_initialized;
  calls = q.calls ∙ p.calls;
}

-- The globals alone.
pub Local-zero : {lo : ℕ} {g h : Heap} → Local lo g h → Local 0 g h
Local-zero p = record {
  below = λ a lt. elim lt [ ];
  heap_end = p.heap_end;
  heap_start = p.heap_start;
  heap_initialized = p.heap_initialized;
  calls = p.calls;
}

-- Setting the state of the first segment.
pub set_free_lem :
    (h : Heap) (b p : Ptr) (s : Segment) (f : Bool) (xs : Cells)
    → IsHeap h b p ((p, s) ∷ xs)
    → (g : Heap) × (set_free p f h ≡ some (tt, g))
      × (IsHeap g b p ((p, segment s.length f) ∷ xs) × Local p h g)
set_free_lem h b p s f xs is = (
  put p (node b (first xs) (segment s.length f)) h,
  set_free-ok h p is.nonnull is.layout.1 f,
  (
    record {
      layout = (
        refl,
        write_self _ _ _,
        Layout-frame p (p + header_size + s.length) xs h.heap_end is.layout.2
            λ a lt. let a_p : a ≢ p = omega arith in write-ne _ _ _ a_p,
      );
      last = is.last;
      bound = is.bound;
      nonnull = is.nonnull;
    },
    record {
      below = λ a lt. let a_p : a ≢ p = omega arith in write-ne _ _ _ a_p;
      heap_end = refl;
      heap_start = refl;
      heap_initialized = refl;
      calls = refl;
    },
  ),
)

-- A segment in use is passed over.
pub try_segment-used :
    (h : Heap) (b p : Ptr) (n : ℕ) (xs : Cells) (size : ℕ)
    → try_segment p (node b (first xs) (segment n false)) size h ≡ some (none, h)
unfolding try_segment
try_segment-used h b p n xs size = refl

module _ (h : Heap) (b p : Ptr) (n : ℕ) (xs : Cells) (size : ℕ)
    (is : IsHeap h b p ((p, segment n true) ∷ xs)) where
  data_address : add64 p header_size ≡ p + header_size
  data_address =
      omega (arith, Layout-le h.headers p (p + header_size + n) xs h.heap_end is.layout.2, is.bound)

  try_segment-split :
      16 ≤ size
      → size + 48 ≤ n
      → (g : Heap) × (try_segment p (node b (first xs) (segment n true)) size h
          ≡ some (some (p + header_size), g))
        × (IsHeap g b p (carve p n size xs) × Local p h g)
  unfolding try_segment
  try_segment-split large room =
      let cut = header_split-Splits h b p (segment n true) xs size is large room in
      let taken =
        set_free_lem cut.0 b p (segment size true) false
          ((p + header_size + size, segment (n - size - header_size) true) ∷ xs) cut.2.0 in
      let longer : ltb size n ≡ true = ground arith in
      let wide : leb (size + 48) n ≡ true = ground arith in
      (
        taken.0,
        rw (longer, cut.1, taken.1, data_address),
        rw wide (taken.2.0, Local-trans cut.2.1 taken.2.1),
      )

  try_segment-whole :
      size ≤ n
      → n < size + 48
      → size < 2 ^ 62
      → (g : Heap) × (try_segment p (node b (first xs) (segment n true)) size h
          ≡ some (some (p + header_size), g))
        × (IsHeap g b p (carve p n size xs) × Local p h g)
  unfolding try_segment
  try_segment-whole large tight limit =
      let taken = set_free_lem h b p (segment n true) false xs is in
      let narrow : leb (size + 48) n ≡ false = ground arith in
      let cut = header_split-null h b p (segment n true) xs size is (inr tight) limit in
      elim (Bool-cases (ltb size n)) [
        | inl longer ↦
            (taken.0, rw (longer, cut, taken.1, data_address), rw narrow (taken.2.0, taken.2.1))
        | inr same ↦
            let equal : (n == size) ≡ true = ground arith in
            (taken.0, rw (same, equal, taken.1, data_address), rw narrow (taken.2.0, taken.2.1))
      ]

  pub try_segment-fits :
      16 ≤ size
      → size < 2 ^ 62
      → size ≤ n
      → (g : Heap) × (try_segment p (node b (first xs) (segment n true)) size h
          ≡ some (some (p + header_size), g))
        × (IsHeap g b p (carve p n size xs) × Local p h g)
  try_segment-fits large limit fit = elim (dec_le (size + 48) n) [
    | yes room ↦ try_segment-split large room
    | no tight ↦ try_segment-whole fit (omega arith) limit
  ]

  pub try_segment-small :
      n < size → try_segment p (node b (first xs) (segment n true)) size h ≡ some (none, h)
  unfolding try_segment
  try_segment-small small =
      let shorter : ltb size n ≡ false = ground arith in
      let other : (n == size) ≡ false = ground arith in rw (shorter, other)

-- What a search from `a` on, with the outcome `r` of `first_fit`, returns and leaves.
abbrev pub Found : Heap → Ptr → ℕ → Option (Ptr × Cells) → Option (Option Ptr × Heap) → Type 0
Found h b a none run = run ≡ some (none, h)
Found h b a (some (p, ys)) run =
    (g : Heap) × (run ≡ some (some p, g)) × (IsHeap g b a ys × Local a h g)

-- The outcome behind a segment that does not fit.
pub Found-behind :
    (h : Heap) (b p : Ptr) (s : Segment) (q : Ptr) (t : Segment) (xs : Cells) (size : ℕ)
    (r : Option (Ptr × Cells)) (run : Option (Option Ptr × Heap))
    → IsHeap h b p ((p, s) ∷ (q, t) ∷ xs)
    → Fit size ((q, t) ∷ xs) r
    → Found h p (p + header_size + s.length) r run
    → Found h b p (behind (p, s) r) run
Found-behind h b p s q t xs size none run is fit found = found
Found-behind h b p s q t xs size (some (a, ys)) run is fit found = (
  found.0,
  found.1,
  (
    record {
      layout = (refl, found.2.1.below p (omega arith) ∙ is.layout.1 ∙ rw fit.1, found.2.0.layout);
      last = found.2.0.last;
      bound = found.2.0.bound;
      nonnull = is.nonnull;
    },
    record {
      below = λ c lt. found.2.1.below c (omega arith);
      heap_end = found.2.1.heap_end;
      heap_start = found.2.1.heap_start;
      heap_initialized = found.2.1.heap_initialized;
      calls = found.2.1.calls;
    },
  ),
)
