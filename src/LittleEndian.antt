-- ===== src/LittleEndian.antt =====
-- Words of several bytes in memory, the low byte first, as the processor reads and writes them.
use skylight.Base.{ℕ, zero, suc, ◌+◌, ◌*◌, ◌/◌, ◌%◌, ◌≤◌, ◌<◌, ◌≡◌, ◌⊎◌, ◌∙◌, refl, inl, arith}
use skylight.Strings.{Memory, store}

unfoldable pub read_bytes : (bytes : ℕ) → Memory → ℕ → ℕ
read_bytes zero m p = 0
read_bytes (suc n) m p = m p + 256 * read_bytes n m (suc p)

unfoldable pub write_bytes : (bytes : ℕ) → Memory → ℕ → ℕ → Memory
write_bytes zero m p v = m
write_bytes (suc n) m p v = write_bytes n (store m p (v % 256)) (suc p) (v / 256)

-- The number of values of that many bytes.
abbrev pub word_limit : ℕ → ℕ
word_limit zero = 1
word_limit (suc n) = 256 * word_limit n

-- Only the bytes of the word change.
pub write_bytes_ne :
    (n : ℕ) (m : Memory) (p v q : ℕ) → (q < p) ⊎ (p + n ≤ q) → write_bytes n m p v q ≡ m q
unfolding write_bytes
write_bytes_ne zero m p v q out = refl
write_bytes_ne (suc n) m p v q out =
    write_bytes_ne n (store m p (v % 256)) (suc p) (v / 256) q (ground (arith, out))
    ∙ ground (arith, out)

-- Words are read as far as the bytes are the same.
pub read_bytes-same :
    (n : ℕ) (l m : Memory) (p : ℕ)
    → ((q : ℕ) → p ≤ q → q < p + n → l q ≡ m q)
    → read_bytes n l p ≡ read_bytes n m p
unfolding read_bytes
read_bytes-same zero l m p same = refl
read_bytes-same (suc n) l m p same =
    let here = same p (omega arith) (omega arith) in
    let rest = read_bytes-same n l m (suc p) (λ q low high. same q (omega arith) (omega arith)) in
    omega (arith, here, rest)

pub read-write :
    (n : ℕ) (m : Memory) (p v : ℕ) → v < word_limit n → read_bytes n (write_bytes n m p v) p ≡ v
unfolding read_bytes write_bytes
read-write zero m p v h = omega arith
read-write (suc n) m p v h =
    let m' = store m p (v % 256) in
    let low : write_bytes n m' (suc p) (v / 256) p ≡ v % 256 =
      write_bytes_ne n m' (suc p) (v / 256) p (inl (omega arith)) ∙ ground arith in
    let high = read-write n m' (suc p) (v / 256) (omega arith) in omega (arith, low, high)

-- A memory of bytes stays one.
pub write_bytes-bytes :
    (n : ℕ) (m : Memory) (p v : ℕ) → ((q : ℕ) → m q < 256) → (q : ℕ) → write_bytes n m p v q < 256
unfolding write_bytes
write_bytes-bytes zero m p v bytes q = bytes q
write_bytes-bytes (suc n) m p v bytes q =
    write_bytes-bytes n (store m p (v % 256)) (suc p) (v / 256) (λ r. ground (arith, bytes r)) q
