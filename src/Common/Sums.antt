-- ===== src/Common/Sums.antt =====
-- Sums of a function over a range of native numbers.
use Prim.Native.Nat.{ℕ, zero, suc, ◌+◌, ◌*◌, ◌≤◌, ◌<◌}
use mathlib.Core.Path.{◌≡◌, refl}
use Prim.Native.Nat.add
use native.Mathlib.Omega.{arith}

-- `f a + f (a + 1) + … `, `n` terms
abbrev pub sum_range : (ℕ → ℕ) → ℕ → ℕ → ℕ
sum_range f a zero = 0
sum_range f a (suc n) = f a + sum_range f (suc a) n

pub sum_range-const :
    (f : ℕ → ℕ) (c a n : ℕ) → ((k : ℕ) → a ≤ k → k < a + n → f k ≡ c) → sum_range f a n ≡ n * c
sum_range-const f c a zero h = omega arith
sum_range-const f c a (suc n) h = omega (
  arith,
  h a (omega arith) (omega arith),
  sum_range-const f c (suc a) n (λ k p q. h k (omega arith) (omega arith)),
)

pub sum_range-cong :
    (f g : ℕ → ℕ) (a n : ℕ) → ((k : ℕ) → a ≤ k → f k ≡ g k) → sum_range f a n ≡ sum_range g a n
sum_range-cong f g a zero h = refl
sum_range-cong f g a (suc n) h =
    omega (arith, h a (omega arith), sum_range-cong f g (suc a) n (λ k p. h k (omega arith)))

pub sum_range-split :
    (f : ℕ → ℕ) (a b m n : ℕ)
    → b ≡ a + m
    → sum_range f a (m + n) ≡ sum_range f a m + sum_range f b n
sum_range-split f a b zero n e =
    let same : b ≡ a = omega arith in
    let none_first : 0 + n ≡ n = omega arith in rw (none_first, same) (omega arith)
sum_range-split f a b (suc m) n e =
    rw add.suc (omega (arith, sum_range-split f (suc a) b m n (omega arith)))
