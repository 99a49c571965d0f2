-- ===== src/Strings/Copy.antt =====
-- `strcpy` and `strcat` of kernel/src/extra/std.
use skylight.Base.{
  ℕ, zero, suc, ◌+◌, ◌<◌, ◌≡◌, ◌≢◌, ◌⊎◌, ◌∙◌, ap, inl, List, [], ◌∷◌, ◌++◌, some, ==_of_ne,
  ==_of_eq, ==_refl, length, arith,
}
use mathlib.Core.Path.{subst}
use mathlib.Core.Option.{map}
use skylight.Strings.{Memory, store, copy, strcpy, end_of, strcat}
use skylight.Strings.Bytes.{IsString, IsString-frame}

-- The memory `n` after a string of `len` characters and its 0 was written at `dest` in `m`.
abbrev pub Written : Memory → Memory → (dest : ℕ) → List ℕ → Type 0
Written m n dest xs =
    IsString n dest xs × ((q : ℕ) → (q < dest) ⊎ (dest + length xs < q) → n q ≡ m q)

store-ne : (m : Memory) (p v q : ℕ) → q ≢ p → store m p v q ≡ m q
store-ne m p v q ne = rw (==_of_ne q p ne)

store_self : (m : Memory) (p v : ℕ) → store m p v p ≡ v
store_self m p v = rw (==_refl p)

copy_lem :
    (rounds : ℕ) (m : Memory) (dest src : ℕ) (xs : List ℕ)
    → IsString m src xs
    → length xs < rounds
    → (dest + length xs < src) ⊎ (src + length xs < dest)
    → (n : Memory) × (copy rounds m dest src ≡ some n) × Written m n dest xs
unfolding copy
copy_lem zero m dest src xs i few apart = absurd (omega arith)
copy_lem (suc rounds) m dest src [] i few apart = (
  store m dest 0,
  rw (==_of_eq (m src) 0 i),
  (store_self m dest 0, λ q out. store-ne m dest 0 q (omega (arith, out))),
)
copy_lem (suc rounds) m dest src (x ∷ xs) (here, pos, byte, rest) few apart =
    let m' = store m dest (m src) in
    let there =
      IsString-frame m m' (suc src) xs
        (λ q low high. store-ne m dest (m src) q (omega (arith, apart))) rest in
    let (n, run, (copied, kept)) =
      copy_lem rounds m' (suc dest) (suc src) xs there (omega arith) (omega (arith, apart)) in
    (
      n,
      rw (==_of_ne (m src) 0 (omega arith)) run,
      (
        (kept dest (inl (omega arith)) ∙ store_self m dest (m src) ∙ here, pos, byte, copied),
        λ q out. kept q (omega (arith, out)) ∙ store-ne m dest (m src) q (omega (arith, out)),
      ),
    )

-- With more rounds than the string has characters, and the string away from the bytes that are
-- written, `strcpy` returns `dest`; the string stands there, and no other byte changes.
pub strcpy_lem :
    (rounds : ℕ) (m : Memory) (dest src : ℕ) (xs : List ℕ)
    → IsString m src xs
    → length xs < rounds
    → (dest + length xs < src) ⊎ (src + length xs < dest)
    → (n : Memory) × (strcpy rounds m dest src ≡ some (dest, n)) × Written m n dest xs
unfolding strcpy
strcpy_lem rounds m dest src xs i few apart =
    let (n, run, w) = copy_lem rounds m dest src xs i few apart in
    (n, ap (map (λ k. (dest, k))) run, w)

end_of_lem :
    (rounds : ℕ) (m : Memory) (p : ℕ) (ys : List ℕ)
    → IsString m p ys
    → length ys < rounds
    → end_of rounds m p ≡ some (p + length ys)
unfolding end_of
end_of_lem zero m p ys i few = absurd (omega arith)
end_of_lem (suc rounds) m p [] i few = rw (==_of_eq (m p) 0 i) (ap some (omega arith))
end_of_lem (suc rounds) m p (y ∷ ys) (here, pos, byte, rest) few =
    rw (==_of_ne (m p) 0 (omega arith))
      (end_of_lem rounds m (suc p) ys rest (omega arith) ∙ ap some (omega arith))

-- Behind the characters of one string stands another.
IsString-append :
    (m n : Memory) (p : ℕ) (ys xs : List ℕ)
    → IsString m p ys
    → ((q : ℕ) → q < p + length ys → n q ≡ m q)
    → IsString n (p + length ys) xs
    → IsString n p (ys ++ xs)
IsString-append m n p [] xs i same j = subst (λ k. IsString n k xs) (omega arith) j
IsString-append m n p (y ∷ ys) xs (here, pos, byte, rest) same j = (
  same p (omega arith) ∙ here,
  pos,
  byte,
  IsString-append m n (suc p) ys xs rest (λ q h. same q (omega arith))
      (subst (λ k. IsString n k xs) (omega arith) j),
)

-- With more rounds than either string has characters, and the second string away from the bytes
-- that are written, `strcat` returns the first pointer; the first string followed by the second
-- stands there, and no byte but those from the end of the first string to the new end changes.
pub strcat_lem :
    (rounds : ℕ) (m : Memory) (dest src : ℕ) (ys xs : List ℕ)
    → IsString m dest ys
    → IsString m src xs
    → length ys < rounds
    → length xs < rounds
    → (dest + length ys + length xs < src) ⊎ (src + length xs < dest + length ys)
    → (n : Memory) × (strcat rounds m dest src ≡ some (dest, n))
      × IsString n dest (ys ++ xs)
      × ((q : ℕ) → (q < dest + length ys) ⊎ (dest + length ys + length xs < q) → n q ≡ m q)
unfolding strcat
strcat_lem rounds m dest src ys xs i j few enough apart =
    let (n, run, (copied, kept)) = copy_lem rounds m (dest + length ys) src xs j enough apart in
    (
      n,
      rw (strcat, end_of_lem rounds m dest ys i few, run),
      IsString-append m n dest ys xs i (λ q h. kept q (inl h)) copied,
      kept,
    )
