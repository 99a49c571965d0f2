-- ===== src/Heap/Layout.antt =====
-- What the headers of a heap describe: segments that tile a range of addresses without a gap,
-- linked both ways, and what a field write does to a header that is there.
use skylight.Base.{ℕ, ◌+◌, ◌^◌, ◌≤◌, ◌<◌, ◌≡◌, Bool, false, some, List, [], ◌∷◌, arith, ◌==◌}
use skylight.Linked.{Ptr, null, Node, node, Nodes, write}
use skylight.Heap.{
  Segment, segment, header_size, Heap, load, set_last, set_next, set_length, set_free,
}

-- Address and fields of each segment, in address order.
abbrev pub Cells : Type 0
Cells = List (Ptr × Segment)

abbrev pub first : Cells → Ptr
first [] = null
first ((p, _) ∷ _) = p

abbrev pub final : Ptr → Cells → Ptr
final d [] = d
final d ((p, _) ∷ xs) = final p xs

-- The segments `xs` fill the addresses from `a` to `e`; each header holds the addresses of its
-- neighbours, `b` being the one before the first.
abbrev pub Layout : Nodes Segment → Ptr → ℕ → Cells → ℕ → Type 0
Layout h b a [] e = a ≡ e
Layout h b a ((p, s) ∷ xs) e =
    (p ≡ a) × (h p ≡ some (node b (first xs) s)) × Layout h p (p + header_size + s.length) xs e

-- A heap whose segments from `a` on are `xs`, behind the one at `b`.
pub record IsHeap (h : Heap) (b : Ptr) (a : ℕ) (xs : Cells) : Type 0 where
  pub layout : Layout h.headers b a xs h.heap_end
  pub last : h.last_header ≡ final b xs
  pub bound : h.heap_end < 2 ^ 63
  pub nonnull : 0 < a

-- From `h` to `g` no header below `lo` and no global but `last_header` has changed.
pub record Local (lo : ℕ) (h g : Heap) : Type 0 where
  pub below : (a : Ptr) → a < lo → g.headers a ≡ h.headers a
  pub heap_end : g.heap_end ≡ h.heap_end
  pub heap_start : g.heap_start ≡ h.heap_start
  pub heap_initialized : g.heap_initialized ≡ h.heap_initialized
  pub calls : g.calls ≡ h.calls

pub Layout-frame :
    {h g : Nodes Segment} (b : Ptr) (a : ℕ) (xs : Cells) (e : ℕ)
    → Layout h b a xs e
    → ((q : Ptr) → a ≤ q → g q ≡ h q)
    → Layout g b a xs e
Layout-frame b a [] e l same = l
Layout-frame b a ((p, s) ∷ xs) e (at, here, l) same = (
  at,
  ground (arith, same p),
  Layout-frame p (p + header_size + s.length) xs e l (λ q lt. same q (omega arith)),
)

pub Layout-le :
    (h : Nodes Segment) (b : Ptr) (a : ℕ) (xs : Cells) (e : ℕ) → Layout h b a xs e → a ≤ e
Layout-le h b a [] e l = omega arith
Layout-le h b a ((p, s) ∷ xs) e (at, here, l) =
    omega (arith, Layout-le h p (p + header_size + s.length) xs e l)

-- The last segment lies at or above the first.
pub final-le :
    (h : Nodes Segment) (b : Ptr) (a : ℕ) (p : Ptr) (s : Segment) (xs : Cells) (e : ℕ)
    → Layout h b a ((p, s) ∷ xs) e
    → a ≤ final p xs
final-le h b a p s [] e (at, here, l) = omega arith
final-le h b a p s ((q, t) ∷ xs) e (at, here, l) =
    omega (arith, final-le h p (p + header_size + s.length) q t xs e l)

-- The heap with the header at `p` replaced.
abbrev pub put : Ptr → Node Segment → Heap → Heap
put p n h = record h { headers = write h.headers p (some n) }

module _ (h : Heap) (p : Ptr) {n : Node Segment} (pos : 0 < p) (here : h.headers p ≡ some n) where
  pub not_null : (p == null) ≡ false
  not_null = ground arith

  pub load-ok : load p h ≡ some (n, h)
  unfolding load
  load-ok = rw (not_null, here)

  pub set_last-ok : (q : Ptr) → set_last p q h ≡ some (tt, put p (record n { prev = q }) h)
  unfolding set_last
  set_last-ok q = rw load-ok

  pub set_next-ok : (q : Ptr) → set_next p q h ≡ some (tt, put p (record n { next = q }) h)
  unfolding set_next
  set_next-ok q = rw load-ok

  pub set_length-ok :
      (k : ℕ) → set_length p k h ≡ some (tt, put p (record n { item = segment k n.item.free }) h)
  unfolding set_length
  set_length-ok k = rw load-ok

  pub set_free-ok :
      (f : Bool) → set_free p f h ≡ some (tt, put p (record n { item = segment n.item.length f }) h)
  unfolding set_free
  set_free-ok f = rw load-ok
