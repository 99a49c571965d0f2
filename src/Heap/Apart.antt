-- ===== src/Heap/Apart.antt =====
-- An allocation keeps free segments apart.
use skylight.Base.{
  ℕ, ◌+◌, ◌-◌, ◌≡◌, refl, Bool, true, false, inl, inr, Option, none, some, [], ◌∷◌, arith, leb,
  Bool-cases,
}
use skylight.Linked.{Ptr}
use skylight.Heap.{Segment, segment, header_size}
use skylight.Heap.Layout.{Cells}
use skylight.Heap.FirstFit.{carve, first_fit, behind}
use skylight.Heap.Coalesce.{Coalesced, apart}

-- What the outcome of `first_fit` on `xs` keeps.
abbrev pub KeepsApart : Cells → Option (Ptr × Cells) → Type 0
KeepsApart xs none = Unit
KeepsApart xs (some (a, ys)) =
    Coalesced ys × ((s : Segment) → apart s xs ≡ true → apart s ys ≡ true)

apart_used : (s : Segment) (p n : ℕ) (xs : Cells) → apart s ((p, segment n false) ∷ xs) ≡ true
apart_used s p n xs = ground arith

apart_behind-used : (n : ℕ) (xs : Cells) → apart (segment n false) xs ≡ true
apart_behind-used n [] = refl
apart_behind-used n (x ∷ xs) = refl

KeepsApart-carve :
    (p n size : ℕ) (xs : Cells)
    → Coalesced ((p, segment n true) ∷ xs)
    → KeepsApart ((p, segment n true) ∷ xs) (some (p + header_size, carve p n size xs))
KeepsApart-carve p n size xs c = elim (Bool-cases (leb (size + 48) n)) [
  | inl room ↦ rw room (
    (refl, (c.0, c.1)),
    λ s e.
        apart_used s p size ((p + header_size + size, segment (n - size - header_size) true) ∷ xs),
  )
  | inr tight ↦ rw tight ((apart_behind-used n xs, c.1), λ s e. apart_used s p n xs)
]

KeepsApart-behind :
    (p : Ptr) (s : Segment) (xs : Cells) (r : Option (Ptr × Cells))
    → apart s xs ≡ true
    → KeepsApart xs r
    → KeepsApart ((p, s) ∷ xs) (behind (p, s) r)
KeepsApart-behind p s xs none e k = tt
KeepsApart-behind p s xs (some (a, ys)) e k = ((k.1 s e, k.0), λ t o. o)

KeepsApart-step :
    (size p n : ℕ) (f : Bool) (xs : Cells)
    → Coalesced ((p, segment n f) ∷ xs)
    → KeepsApart xs (first_fit size xs)
    → KeepsApart ((p, segment n f) ∷ xs) (first_fit size ((p, segment n f) ∷ xs))
KeepsApart-step size p n false xs c k =
    KeepsApart-behind p (segment n false) xs (first_fit size xs) c.0 k
KeepsApart-step size p n true xs c k = elim (Bool-cases (leb size n)) [
  | inl large ↦ rw large (KeepsApart-carve p n size xs c)
  | inr small ↦ rw small (KeepsApart-behind p (segment n true) xs (first_fit size xs) c.0 k)
]

pub first_fit-KeepsApart :
    (size : ℕ) (xs : Cells) → Coalesced xs → KeepsApart xs (first_fit size xs)
first_fit-KeepsApart size [] c = tt
first_fit-KeepsApart size ((p, s) ∷ xs) c =
    KeepsApart-step size p s.length s.free xs c (first_fit-KeepsApart size xs c.1)
