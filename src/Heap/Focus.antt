-- ===== src/Heap/Focus.antt =====
-- Work on the middle of a heap: what holds of the segments from one on, and how a change of them
-- carries over to the whole.
use skylight.Base.{◌+◌, ◌≤◌, ◌<◌, ◌≡◌, ◌∙◌, refl, [], ◌∷◌, ◌++◌, arith}
use skylight.Linked.{Ptr}
use skylight.Heap.{Segment, header_size, Heap}
use skylight.Heap.Layout.{Cells, first, final, IsHeap}

pub inner :
    (h : Heap) (b a : Ptr) (pre : Cells) (l : Ptr) (k : Segment) (post : Cells)
    → IsHeap h b a (pre ++ (l, k) ∷ post)
    → IsHeap h (final b pre) l ((l, k) ∷ post)
inner h b a [] l k post is = record {
  layout = (refl, is.layout.1, is.layout.2);
  last = is.last;
  bound = is.bound;
  nonnull = omega (arith, is.nonnull, is.layout.0);
}
inner h b a ((p, s) ∷ pre) l k post is =
    inner h p (p + header_size + s.length) pre l k post (record {
      layout = is.layout.2;
      last = is.last;
      bound = is.bound;
      nonnull = omega (arith, is.nonnull, is.layout.0);
    })

-- The part before lies below the part that is changed.
pub inner-le :
    (h : Heap) (b a : Ptr) (pre : Cells) (l : Ptr) (k : Segment) (post : Cells)
    → IsHeap h b a (pre ++ (l, k) ∷ post)
    → a ≤ l
inner-le h b a [] l k post is = omega (arith, is.layout.0)
inner-le h b a ((p, s) ∷ pre) l k post is = omega (
  arith,
  is.layout.0,
  inner-le h p (p + header_size + s.length) pre l k post (record {
    layout = is.layout.2;
    last = is.last;
    bound = is.bound;
    nonnull = omega (arith, is.nonnull, is.layout.0);
  }),
)

first-append :
    (pre : Cells) (l : Ptr) (k k' : Segment) (xs ys : Cells)
    → first (pre ++ (l, k) ∷ xs) ≡ first (pre ++ (l, k') ∷ ys)
first-append [] l k k' xs ys = refl
first-append (c ∷ pre) l k k' xs ys = refl

pub outer :
    (h g : Heap) (b a : Ptr) (pre : Cells) (l : Ptr) (k k' : Segment) (post ys : Cells)
    → IsHeap h b a (pre ++ (l, k) ∷ post)
    → IsHeap g (final b pre) l ((l, k') ∷ ys)
    → ((c : Ptr) → c < l → g.headers c ≡ h.headers c)
    → IsHeap g b a (pre ++ (l, k') ∷ ys)
outer h g b a [] l k k' post ys is new below = record {
  layout = (is.layout.0, new.layout.1, new.layout.2);
  last = new.last;
  bound = new.bound;
  nonnull = is.nonnull;
}
outer h g b a ((p, s) ∷ pre) l k k' post ys is new below =
    let tail : IsHeap h p (p + header_size + s.length) (pre ++ (l, k) ∷ post) = record {
      layout = is.layout.2;
      last = is.last;
      bound = is.bound;
      nonnull = omega (arith, is.nonnull, is.layout.0);
    } in
    let rest = outer h g p (p + header_size + s.length) pre l k k' post ys tail new below in
    let under = inner-le h p (p + header_size + s.length) pre l k post tail in
    record {
      layout = (
        is.layout.0,
        below p (omega arith) ∙ is.layout.1 ∙ rw (first-append pre l k k' post ys),
        rest.layout,
      );
      last = rest.last;
      bound = rest.bound;
      nonnull = is.nonnull;
    }
