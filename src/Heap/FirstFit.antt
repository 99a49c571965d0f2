-- ===== src/Heap/FirstFit.antt =====
-- The abstract heap: a list of segments, and what an allocation makes of it.
use skylight.Base.{
  ℕ, ◌+◌, ◌-◌, ◌≤◌, ◌≡◌, refl, ap, inl, inr, Bool, true, false, ◌&&◌, Option, none, some, [], ◌∷◌,
  ◌++◌, arith, leb, if◌then◌else◌, Bool-cases,
}
use skylight.Linked.{Ptr}
use skylight.Heap.{Segment, segment, header_size}
use skylight.Heap.Layout.{Cells, first}

-- The first segment given out: it is split where the rest has room for a header and 16 bytes.
abbrev pub carve : Ptr → ℕ → ℕ → Cells → Cells
carve p n size xs =
    if leb (size + 48) n
    then (p, segment size false)
      ∷ (p + header_size + size, segment (n - size - header_size) true)
      ∷ xs
    else (p, segment n false) ∷ xs

abbrev pub fits : ℕ → Segment → Bool
fits size s = s.free && leb size s.length

abbrev pub behind : Ptr × Segment → Option (Ptr × Cells) → Option (Ptr × Cells)
behind c none = none
behind c (some (a, ys)) = some (a, c ∷ ys)

-- The first free segment that is long enough, with the address of its data and the segments left.
abbrev pub first_fit : ℕ → Cells → Option (Ptr × Cells)
first_fit size [] = none
first_fit size ((p, s) ∷ xs) =
    if fits size s
    then some (p + header_size, carve p s.length size xs)
    else behind (p, s) (first_fit size xs)

-- The segments in use.
abbrev pub used : Cells → Cells
used [] = []
used ((p, s) ∷ xs) = if s.free then used xs else (p, s) ∷ used xs

-- `ys` is `xs` with one segment in use inserted: `size` bytes at least, its data at `a`.
pub record Inserted (a size : ℕ) (xs ys : Cells) : Type 0 where
  pub before : Cells
  pub cell : Ptr
  pub length : ℕ
  pub after : Cells
  pub old : xs ≡ before ++ after
  pub new : ys ≡ before ++ (cell, segment length false) ∷ after
  pub address : a ≡ cell + header_size
  pub large : size ≤ length

used-carve :
    (p : Ptr) (n size : ℕ) (xs : Cells)
    → size ≤ n
    → Inserted (p + header_size) size (used xs) (used (carve p n size xs))
used-carve p n size xs large = elim (Bool-cases (leb (size + 48) n)) [
  | inl room ↦ record {
    before = [];
    cell = p;
    length = size;
    after = used xs;
    old = refl;
    new = rw room;
    address = refl;
    large = omega arith;
  }
  | inr tight ↦ record {
    before = [];
    cell = p;
    length = n;
    after = used xs;
    old = refl;
    new = rw tight;
    address = refl;
    large = large;
  }
]

Inserted-behind :
    {a size : ℕ} (xs ys : Cells) (p : Ptr) (n : ℕ) (f : Bool)
    → Inserted a size (used xs) (used ys)
    → Inserted a size (used ((p, segment n f) ∷ xs)) (used ((p, segment n f) ∷ ys))
Inserted-behind xs ys p n true i = i
Inserted-behind xs ys p n false i = record {
  before = (p, segment n false) ∷ i.before;
  cell = i.cell;
  length = i.length;
  after = i.after;
  old = ap (λ l. (p, segment n false) ∷ l) i.old;
  new = ap (λ l. (p, segment n false) ∷ l) i.new;
  address = i.address;
  large = i.large;
}

-- What the outcome of `first_fit` on `xs` may be.
abbrev pub Fit : ℕ → Cells → Option (Ptr × Cells) → Type 0
Fit size xs none = Unit
Fit size xs (some (a, ys)) = Inserted a size (used xs) (used ys) × (first ys ≡ first xs)

Fit-behind :
    (size : ℕ) (xs : Cells) (p : Ptr) (n : ℕ) (f : Bool) (r : Option (Ptr × Cells))
    → Fit size xs r
    → Fit size ((p, segment n f) ∷ xs) (behind (p, segment n f) r)
Fit-behind size xs p n f none i = tt
Fit-behind size xs p n f (some (a, ys)) i = (Inserted-behind xs ys p n f i.0, refl)

first-carve : (p : Ptr) (n size : ℕ) (xs : Cells) → first (carve p n size xs) ≡ p
first-carve p n size xs = elim (Bool-cases (leb (size + 48) n)) [
  | inl room ↦ rw room
  | inr tight ↦ rw tight
]

Fit-step :
    (size : ℕ) (xs : Cells) (p : Ptr) (n : ℕ) (f : Bool)
    → Fit size xs (first_fit size xs)
    → Fit size ((p, segment n f) ∷ xs) (first_fit size ((p, segment n f) ∷ xs))
Fit-step size xs p n false i = Fit-behind size xs p n false (first_fit size xs) i
Fit-step size xs p n true i = elim (Bool-cases (leb size n)) [
  | inl large ↦ rw large (used-carve p n size xs (ground arith), first-carve p n size xs)
  | inr small ↦ rw small (Fit-behind size xs p n true (first_fit size xs) i)
]

-- What `first_fit` gives out was free and is in use afterwards; no other segment in use changes.
pub first_fit-Fit : (size : ℕ) (xs : Cells) → Fit size xs (first_fit size xs)
first_fit-Fit size [] = tt
first_fit-Fit size ((p, s) ∷ xs) = Fit-step size xs p s.length s.free (first_fit-Fit size xs)
