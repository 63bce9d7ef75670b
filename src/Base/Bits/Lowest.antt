-- ===== src/Base/Bits/Lowest.antt =====
-- The lowest set bit of a number, and `x & -x`, which isolates it.
use Prim.Native.Nat.{ℕ, zero, suc, ◌-◌, ◌*◌, ◌/◌, ◌%◌, ◌^◌, ◌<◌, bit_and}
use mathlib.Core.Path.{◌≡◌, refl}
use mathlib.Core.Logic.{inl, inr}
use native.Mathlib.Nat.{pow-suc}
use native.Mathlib.Omega.{arith}
use lightcache.Base.Tests.{◌==◌, ==_iff, if◌then◌else◌, Bool-cases}
use lightcache.Base.Bits.{bit, bit_and-halves}

-- The number of zeros below the lowest set bit of an `n`-bit number.
pub trailing_zeros : ℕ → ℕ → ℕ
trailing_zeros zero x = 0
trailing_zeros (suc n) x = if x % 2 == 1 then 0 else suc (trailing_zeros n (x / 2))

pub trailing_zeros-lt : (n x : ℕ) → 0 < x → x < 2 ^ n → trailing_zeros n x < n
unfolding trailing_zeros
trailing_zeros-lt zero x h k = absurd (omega arith)
trailing_zeros-lt (suc n) x h k = ground (arith, pow-suc 2 n, trailing_zeros-lt n (x / 2))

-- The bit that it names is set.
pub bit-trailing_zeros : (n x : ℕ) → 0 < x → x < 2 ^ n → bit x (trailing_zeros n x) ≡ 1
unfolding trailing_zeros bit
bit-trailing_zeros zero x h k = absurd (omega arith)
bit-trailing_zeros (suc n) x h k = ground (arith, pow-suc 2 n, bit-trailing_zeros n (x / 2))

-- No bit below it is.
pub bit_below_trailing_zeros : (n x i : ℕ) → i < trailing_zeros n x → bit x i ≡ 0
unfolding trailing_zeros bit
bit_below_trailing_zeros zero x i h = elim h [ ]
bit_below_trailing_zeros (suc n) x zero h = ground arith
bit_below_trailing_zeros (suc n) x (suc i) h = ground (arith, bit_below_trailing_zeros n (x / 2) i)

-- A number and its complement share no bit.
and_complement : (n m : ℕ) → m < 2 ^ n → bit_and m (2 ^ n - 1 - m) ≡ 0
and_complement zero zero h = refl
and_complement zero (suc m) h = absurd (omega arith)
and_complement (suc n) m h =
    let e : (2 ^ suc n - 1 - m) / 2 ≡ 2 ^ n - 1 - m / 2 = omega (arith, pow-suc 2 n) in
    let ih : bit_and (m / 2) ((2 ^ suc n - 1 - m) / 2) ≡ 0 =
      rw e (and_complement n (m / 2) (omega (arith, pow-suc 2 n))) in
    omega (arith, bit_and-halves m (2 ^ suc n - 1 - m), ih, pow-suc 2 n)

and_odd : (n x : ℕ) → x < 2 ^ suc n → x % 2 ≡ 1 → bit_and x (2 ^ suc n - x) ≡ 1
and_odd n x k o =
    let e : (2 ^ suc n - x) / 2 ≡ 2 ^ n - 1 - x / 2 = omega (arith, pow-suc 2 n) in
    let upper : bit_and (x / 2) ((2 ^ suc n - x) / 2) ≡ 0 =
      rw e (and_complement n (x / 2) (omega (arith, pow-suc 2 n))) in
    omega (arith, bit_and-halves x (2 ^ suc n - x), upper, pow-suc 2 n)

and_even :
    (n x : ℕ)
    → x < 2 ^ suc n
    → x % 2 ≡ 0
    → bit_and x (2 ^ suc n - x) ≡ bit_and (x / 2) (2 ^ n - x / 2) * 2
and_even n x k o =
    let e : (2 ^ suc n - x) / 2 ≡ 2 ^ n - x / 2 = omega (arith, pow-suc 2 n) in
    let upper : bit_and (x / 2) ((2 ^ suc n - x) / 2) ≡ bit_and (x / 2) (2 ^ n - x / 2) = rw e in
    omega (arith, bit_and-halves x (2 ^ suc n - x), upper)

-- In `n` bits, `x & -x` is the lowest set bit of `x` alone.
pub and_negation : (n x : ℕ) → 0 < x → x < 2 ^ n → bit_and x (2 ^ n - x) ≡ 2 ^ trailing_zeros n x
unfolding trailing_zeros
and_negation zero x h k = absurd (omega arith)
and_negation (suc n) x h k = elim (Bool-cases (x % 2 == 1)) [
  | inl o ↦ rw o (and_odd n x k ((==_iff _ _).0 o))
  | inr e ↦
      let even : x % 2 ≡ 0 = ground arith in
      let ih = and_negation n (x / 2) (omega arith) (omega (arith, pow-suc 2 n)) in
      rw e (omega (arith, and_even n x k even, ih, pow-suc 2 (trailing_zeros n (x / 2))))
]
