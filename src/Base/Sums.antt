-- ===== src/Base/Sums.antt =====
-- Sums over the numbers below a bound.
use Prim.Native.Nat.{ℕ, zero, suc, ◌+◌, ◌*◌, ◌<◌, ◌≤◌}
use mathlib.Core.Path.{◌≡◌, refl}
use mathlib.Core.Logic.{◌≢◌, inl, inr}
use native.Mathlib.Omega.{arith}
use lightcache.Base.Tests.{◌==◌, ==_iff, Bool-cases}

unfoldable pub sum : (ℕ → ℕ) → ℕ → ℕ
sum f zero = 0
sum f (suc n) = sum f n + f n

pub sum_congr : (f g : ℕ → ℕ) (n : ℕ) → ((j : ℕ) → j < n → g j ≡ f j) → sum g n ≡ sum f n
unfolding sum
sum_congr f g zero same = refl
sum_congr f g (suc n) same =
    omega (arith, sum_congr f g n (λ j h. same j (omega arith)), same n (omega arith))

-- A change of one term.
pub sum_change :
    (f g : ℕ → ℕ) (n i : ℕ) → i < n → ((j : ℕ) → j ≢ i → g j ≡ f j) → sum g n + f i ≡ sum f n + g i
unfolding sum
sum_change f g zero i h same = absurd (omega (arith, h))
sum_change f g (suc n) i h same = elim (Bool-cases (i == n)) [
  | inl e ↦
      let s : i ≡ n = (==_iff i n).0 e in
      let below = sum_congr f g n (λ j l. same j (λ x. absurd (omega (arith, l, s, x)))) in
      ground (arith, below, s)
  | inr e ↦
      let ne : i ≢ n = λ s. absurd (ground (arith, e, s)) in
      let last = same n (λ x. ne (omega (arith, x))) in
      omega (arith, sum_change f g n i (ground (arith, h, ne)) same, last)
]

-- The first `k` terms count for at least `k` if none is 0.
pub sum-ge : (f : ℕ → ℕ) (n k : ℕ) → k ≤ n → ((j : ℕ) → j < k → 1 ≤ f j) → k ≤ sum f n
unfolding sum
sum-ge f zero k h some_each = omega (arith, h)
sum-ge f (suc n) k h some_each = elim (Bool-cases (k == suc n)) [
  | inl e ↦
      let s : k ≡ suc n = (==_iff k (suc n)).0 e in
      omega (
        arith,
        s,
        some_each n (omega (arith, s)),
        sum-ge f n n (omega arith) (λ j l. some_each j (omega (arith, s, l))),
      )
  | inr e ↦
      let ne : k ≢ suc n = λ s. absurd (ground (arith, e, s)) in
      omega (arith, sum-ge f n k (ground (arith, h, ne)) some_each)
]

pub sum-le : (f : ℕ → ℕ) (n : ℕ) → ((j : ℕ) → j < n → f j ≤ 1048576) → sum f n ≤ n * 1048576
unfolding sum
sum-le f zero each = omega arith
sum-le f (suc n) each =
    omega (arith, sum-le f n (λ j l. each j (omega (arith, l))), each n (omega arith))

pub term_le-sum : (f : ℕ → ℕ) (n j : ℕ) → j < n → f j ≤ sum f n
unfolding sum
term_le-sum f zero j h = absurd (omega (arith, h))
term_le-sum f (suc n) j h = elim (Bool-cases (j == n)) [
  | inl e ↦ ground (arith, (==_iff j n).0 e)
  | inr e ↦
      let ne : j ≢ n = λ s. absurd (ground (arith, e, s)) in
      omega (arith, term_le-sum f n j (ground (arith, h, ne)))
]

pub sum-zero : (f : ℕ → ℕ) (n : ℕ) → ((j : ℕ) → j < n → f j ≡ 0) → sum f n ≡ 0
unfolding sum
sum-zero f zero each = refl
sum-zero f (suc n) each =
    omega (arith, sum-zero f n (λ j l. each j (omega (arith, l))), each n (omega arith))
