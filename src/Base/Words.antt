-- ===== src/Base/Words.antt =====
-- 64-bit words as native numbers: the wrap-around of `+`, `-` and the signed reading of a word.
use Prim.Native.Nat.{ℕ, ◌+◌, ◌-◌, ◌*◌, ◌%◌, ◌^◌, ◌≤◌, ◌<◌}
use mathlib.Core.Bool.{Bool, true, false, ◌||◌}
use mathlib.Core.Path.{◌≡◌}
use native.Mathlib.Omega.{arith}
use package.skylight.Base.Tests.{ltb, leb}

-- `uint64_t` addition, subtraction and multiplication.
abbrev pub add64 : ℕ → ℕ → ℕ
add64 a b = (a + b) % 2 ^ 64

abbrev pub sub64 : ℕ → ℕ → ℕ
sub64 a b = (a + 2 ^ 64 - b) % 2 ^ 64

abbrev pub mul64 : ℕ → ℕ → ℕ
mul64 a b = (a * b) % 2 ^ 64

-- `(int64_t) w < k` for a small non-negative `k`: a word with its top bit set is negative.
abbrev pub slt64 : ℕ → ℕ → Bool
slt64 w k = ltb w k || leb (2 ^ 63) w

pub slt64_of_le : (w k : ℕ) → k ≤ w → w < 2 ^ 63 → slt64 w k ≡ false
slt64_of_le w k h fits = ground arith

pub slt64_of_lt : (w k : ℕ) → w < k → slt64 w k ≡ true
slt64_of_lt w k h = ground arith

pub slt64_of_neg : (w k : ℕ) → 2 ^ 63 ≤ w → slt64 w k ≡ true
slt64_of_neg w k h = ground arith
