-- ===== src/Base/Sums.antt =====
-- Sums over 0, …, n - 1: how many nodes are in some state, how much work is left.
use Prim.Native.Nat.{ℕ, zero, suc, ◌+◌, ◌*◌, ◌≤◌, ◌<◌}
use mathlib.Core.Path.{◌≡◌, refl}
use mathlib.Core.Logic.{◌≢◌, inl, inr}
use native.Mathlib.Omega.{arith}
use scampi.Base.Tests.{◌==◌, Bool-cases}

-- The sum of `f` over 0, …, n - 1.
abbrev pub sum_below : (ℕ → ℕ) → ℕ → ℕ
sum_below f zero = 0
sum_below f (suc n) = sum_below f n + f n

pub sum_below_mono : (f g : ℕ → ℕ) (n : ℕ) → ((k : ℕ) → f k ≤ g k) → sum_below f n ≤ sum_below g n
sum_below_mono f g zero h = omega arith
sum_below_mono f g (suc n) h = omega (arith, h n, sum_below_mono f g n h)

pub sum_below-strict :
    (f g : ℕ → ℕ) (n i : ℕ)
    → i < n
    → f i < g i
    → ((k : ℕ) → f k ≤ g k)
    → sum_below f n < sum_below g n
sum_below-strict f g zero i b s h = absurd (omega arith)
sum_below-strict f g (suc n) i b s h = elim (Bool-cases (i == n)) [
  | inl e ↦ ground (arith, h n, sum_below_mono f g n h)
  | inr e ↦ ground (arith, h n, sum_below-strict f g n i (ground arith) s h)
]

pub sum_below-congr :
    (f g : ℕ → ℕ) (n : ℕ) → ((k : ℕ) → k < n → f k ≡ g k) → sum_below f n ≡ sum_below g n
sum_below-congr f g zero h = refl
sum_below-congr f g (suc n) h =
    omega (arith, h n (omega arith), sum_below-congr f g n (λ k b. h k (omega arith)))

-- One more at `i`, and nothing else changed.
pub sum_below-suc :
    (f g : ℕ → ℕ) (n i : ℕ)
    → i < n
    → g i ≡ suc (f i)
    → ((k : ℕ) → k ≢ i → g k ≡ f k)
    → sum_below g n ≡ suc (sum_below f n)
sum_below-suc f g zero i b e h = absurd (omega arith)
sum_below-suc f g (suc n) i b e h = elim (Bool-cases (i == n)) [
  | inl same ↦
      let now : i ≡ n = ground arith in
      let rest = sum_below-congr g f n (λ k lt. h k (omega arith)) in ground arith
  | inr other ↦
      let rest = sum_below-suc f g n i (ground arith) e h in
      let last = h n (λ eq. ground arith) in omega arith
]

pub sum_below-ones : (n : ℕ) → sum_below (λ k. 1) n ≡ n
sum_below-ones zero = refl
sum_below-ones (suc n) = omega (arith, sum_below-ones n)

pub sum_below-le : (f : ℕ → ℕ) (c n : ℕ) → ((k : ℕ) → f k ≤ c) → sum_below f n ≤ c * n
sum_below-le f c zero h = omega arith
sum_below-le f c (suc n) h = grind (arith, h n, sum_below-le f c n h)
