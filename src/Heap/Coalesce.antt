-- ===== src/Heap/Coalesce.antt =====
-- `free` on the whole heap: which segments stay in use, and that no two neighbours are both free.
use skylight.Base.{ℕ, ◌≡◌, ◌∙◌, refl, ap, Bool, true, false, [], ◌∷◌, ◌++◌, arith, if◌then◌else◌}
use skylight.Linked.{Ptr}
use skylight.Heap.{Segment, segment}
use skylight.Heap.Layout.{Cells}
use skylight.Heap.FirstFit.{used}
use skylight.Heap.Merge.{joined}
use skylight.Heap.Free.{freed, freed_rest, backed, backed_rest, release}

abbrev pub apart : Segment → Cells → Bool
apart s [] = true
apart s ((_, t) ∷ xs) = if s.free then (if t.free then false else true) else true

-- No two neighbouring segments are both free.
abbrev pub Coalesced : Cells → Type 0
Coalesced [] = Unit
Coalesced ((p, s) ∷ xs) = (apart s xs ≡ true) × Coalesced xs

pub used-append : (xs ys : Cells) → used (xs ++ ys) ≡ used xs ++ used ys
used-append [] ys = refl
used-append ((p, s) ∷ xs) ys = step s.length s.free (used-append xs ys)
  where
    step :
        (n : ℕ) (f : Bool)
        → used (xs ++ ys) ≡ used xs ++ used ys
        → used ((p, segment n f) ∷ xs ++ ys) ≡ used ((p, segment n f) ∷ xs) ++ used ys
    step n true e = e
    step n false e = ap (λ l. (p, segment n false) ∷ l) e

-- Only what is free is joined, and the joined segment is free.
pub used-freed :
    (n : ℕ) (p : Ptr) (xs : Cells) → ((freed n xs).free ≡ true) × (used (freed_rest xs) ≡ used xs)
used-freed n p [] = (refl, refl)
used-freed n p ((q, t) ∷ xs) = step t.length t.free
  where
    step :
        (m : ℕ) (f : Bool)
        → ((freed n ((q, segment m f) ∷ xs)).free ≡ true)
          × (used (freed_rest ((q, segment m f) ∷ xs)) ≡ used ((q, segment m f) ∷ xs))
    step m true = (refl, refl)
    step m false = (refl, refl)

used-backed_free :
    (l : Ptr) (n : ℕ) (f : Bool) (p : Ptr) (m : ℕ) (xs : Cells)
    → used (
        (l, backed (segment n f) (segment m true))
        ∷ backed_rest (segment n f) p (segment m true) xs)
      ≡ used ((l, segment n f) ∷ []) ++ used xs
used-backed_free l n true p m xs = refl
used-backed_free l n false p m xs = refl

used-backed :
    (l : Ptr) (k : Segment) (p : Ptr) (m : ℕ) (f : Bool) (xs : Cells)
    → f ≡ true
    → used ((l, backed k (segment m f)) ∷ backed_rest k p (segment m f) xs)
      ≡ used ((l, k) ∷ []) ++ used xs
used-backed l k p m true xs e = used-backed_free l k.length k.free p m xs
used-backed l k p m false xs e = cc

pub used-release :
    (l : Ptr) (k : Segment) (p : Ptr) (n : ℕ) (xs : Cells)
    → used (release l k p n xs) ≡ used ((l, k) ∷ []) ++ used xs
used-release l k p n xs =
    used-backed l k p (freed n xs).length (freed n xs).free (freed_rest xs) (used-freed n p xs).0
    ∙ ap (λ r. used ((l, k) ∷ []) ++ r) (used-freed n p xs).1

apart_used :
    (s : Segment) (p : Ptr) (t : Segment) (xs : Cells)
    → t.free ≡ false
    → apart s ((p, t) ∷ xs) ≡ true
apart_used s p t xs e = ground arith

-- With the segments from `l` on exchanged for ones that begin as free or not, the heap stays
-- coalesced.
pub Coalesced-replace :
    (pre : Cells) (l : Ptr) (k k' : Segment) (xs ys : Cells)
    → Coalesced (pre ++ (l, k) ∷ xs)
    → k'.free ≡ k.free
    → Coalesced ((l, k') ∷ ys)
    → Coalesced (pre ++ (l, k') ∷ ys)
Coalesced-replace [] l k k' xs ys c e d = d
Coalesced-replace ((p, s) ∷ []) l k k' xs ys c e d = (ground arith, d)
Coalesced-replace ((p, s) ∷ q ∷ pre) l k k' xs ys c e d =
    (c.0, Coalesced-replace (q ∷ pre) l k k' xs ys c.1 e d)

pub Coalesced-tail :
    (pre : Cells) (l : Ptr) (k : Segment) (xs : Cells)
    → Coalesced (pre ++ (l, k) ∷ xs)
    → Coalesced ((l, k) ∷ xs)
Coalesced-tail [] l k xs c = c
Coalesced-tail ((p, s) ∷ pre) l k xs c = Coalesced-tail pre l k xs c.1

-- Behind the freed segment stands one in use, or none.
pub apart-freed : (n : ℕ) (xs : Cells) (s : Segment) → Coalesced xs → apart s (freed_rest xs) ≡ true
apart-freed n [] s c = refl
apart-freed n ((q, t) ∷ xs) s c = step t.length t.free xs c.0
  where
    step :
        (m : ℕ) (f : Bool) (ys : Cells)
        → apart (segment m f) ys ≡ true
        → apart s (freed_rest ((q, segment m f) ∷ ys)) ≡ true
    step m true [] e = refl
    step m true ((r, u) ∷ ys) e = ground arith
    step m false ys e = ground arith

pub Coalesced-freed_rest : (xs : Cells) → Coalesced xs → Coalesced (freed_rest xs)
Coalesced-freed_rest [] c = tt
Coalesced-freed_rest ((q, t) ∷ xs) c = step t.length t.free c.0
  where
    step :
        (m : ℕ) (f : Bool)
        → apart (segment m f) xs ≡ true
        → Coalesced (freed_rest ((q, segment m f) ∷ xs))
    step m true e = c.1
    step m false e = (e, c.1)

Coalesced-backed :
    (l : Ptr) (n : ℕ) (f : Bool) (p : Ptr) (m : ℕ) (f' : Bool) (xs : Cells)
    → f' ≡ true
    → ((s : Segment) → apart s xs ≡ true)
    → Coalesced xs
    → Coalesced
        ((l, backed (segment n f) (segment m f')) ∷ backed_rest (segment n f) p (segment m f') xs)
Coalesced-backed l n true p m true xs e far c = (far (joined (segment n true) (segment m true)), c)
Coalesced-backed l n false p m true xs e far c = (refl, (far (segment m true), c))
Coalesced-backed l n f p m false xs e far c = cc

free-backed : (k t : Segment) → (backed k t).free ≡ k.free
free-backed k t = step k.length k.free t.free
  where
    step : (n : ℕ) (f f' : Bool) → (backed (segment n f) (segment t.length f')).free ≡ f
    step n true true = refl
    step n true false = refl
    step n false f' = refl

pub Coalesced-release :
    (pre : Cells) (l : Ptr) (k : Segment) (p : Ptr) (s : Segment) (xs : Cells)
    → Coalesced (pre ++ (l, k) ∷ (p, s) ∷ xs)
    → Coalesced (pre ++ release l k p s.length xs)
Coalesced-release pre l k p s xs c =
    let tail = (Coalesced-tail pre l k ((p, s) ∷ xs) c).1.1 in
    Coalesced-replace pre l k (backed k (freed s.length xs)) ((p, s) ∷ xs)
      (backed_rest k p (freed s.length xs) (freed_rest xs)) c (free-backed k (freed s.length xs))
      (Coalesced-backed l k.length k.free p (freed s.length xs).length (freed s.length xs).free
        (freed_rest xs) (used-freed s.length p xs).0 (λ t. apart-freed s.length xs t tail)
        (Coalesced-freed_rest xs tail))
