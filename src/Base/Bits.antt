-- ===== src/Base/Bits.antt =====
-- Bits of a number, and the bitwise operations on them.
pub mod Lowest
use Prim.Native.Nat.{
  ℕ, zero, suc, ◌+◌, ◌-◌, ◌*◌, ◌/◌, ◌%◌, ◌^◌, ◌≤◌, ◌<◌, min, max, bit_and, bit_or, digits, bitwise,
  bit_and-bitwise, bit_or-bitwise,
}
use mathlib.Core.Path.{◌≡◌, refl}
use native.Mathlib.Nat.{le_refl, pow-suc, pow-succ', div-div-eq-div-mul, one-le-pow, div-add-mod}
use native.Mathlib.Omega.{arith}
use lightcache.Base.Tests.{◌==◌, if◌then◌else◌}

module _ (z : ℕ → ℕ) (f : ℕ → ℕ → ℕ) where
  -- The fuel of `digits` does not matter once it covers the number.
  fuel_irrelevant : (n m a b : ℕ) → a ≤ n → a ≤ m → digits z f n a b ≡ digits z f m a b
  fuel_irrelevant zero zero a b p q = refl
  fuel_irrelevant (suc n) (suc m) (suc a) b p q =
      rw (fuel_irrelevant n m (suc a / 2) (b / 2) (omega arith) (omega arith))
  fuel_irrelevant zero (suc m) zero b p q = refl
  fuel_irrelevant (suc n) zero zero b p q = refl
  fuel_irrelevant (suc n) (suc m) zero b p q = refl
  fuel_irrelevant zero (suc m) (suc a) b p q = elim p [ ]
  fuel_irrelevant (suc n) zero (suc a) b p q = elim q [ ]

  low_digit :
      (v w : ℕ)
      → bitwise z f (suc v) w ≡ bitwise z f (suc v / 2) (w / 2) * 2 + f (suc v % 2) (w % 2)
  low_digit v w =
      let half = suc v / 2 in
      omega (arith, fuel_irrelevant v half half (w / 2) (omega arith) (le_refl half))

pub bit_or-halves : (a b : ℕ) → bit_or a b ≡ bit_or (a / 2) (b / 2) * 2 + max (a % 2) (b % 2)
bit_or-halves zero b = simp bit_or-bitwise (omega arith)
bit_or-halves (suc a) b = simp bit_or-bitwise (low_digit (λ y. y) max a b)

pub bit_and-halves : (a b : ℕ) → bit_and a b ≡ bit_and (a / 2) (b / 2) * 2 + min (a % 2) (b % 2)
bit_and-halves zero b = simp bit_and-bitwise (omega arith)
bit_and-halves (suc a) b = simp bit_and-bitwise (low_digit (λ y. 0) min a b)

-- Bit `i` of `w`, by halving.
pub bit : ℕ → ℕ → ℕ
bit w zero = w % 2
bit w (suc i) = bit (w / 2) i

pub bit-le-one : (w i : ℕ) → bit w i ≤ 1
unfolding bit
bit-le-one w zero = omega arith
bit-le-one w (suc i) = bit-le-one (w / 2) i

pub bit-zero : (i : ℕ) → bit 0 i ≡ 0
unfolding bit
bit-zero zero = refl
bit-zero (suc i) = bit-zero i

half_double : (q r : ℕ) → r < 2 → (q * 2 + r) / 2 ≡ q
half_double q r h = omega arith

pub bit-bit_or : (a b i : ℕ) → bit (bit_or a b) i ≡ max (bit a i) (bit b i)
unfolding bit
bit-bit_or a b zero = omega (arith, bit_or-halves a b)
bit-bit_or a b (suc i) =
    let e : bit_or a b / 2 ≡ bit_or (a / 2) (b / 2) = omega (arith, bit_or-halves a b) in
    rw e (bit-bit_or (a / 2) (b / 2) i)

pub bit-bit_and : (a b i : ℕ) → bit (bit_and a b) i ≡ min (bit a i) (bit b i)
unfolding bit
bit-bit_and a b zero = omega (arith, bit_and-halves a b)
bit-bit_and a b (suc i) =
    let e : bit_and a b / 2 ≡ bit_and (a / 2) (b / 2) = omega (arith, bit_and-halves a b) in
    rw e (bit-bit_and (a / 2) (b / 2) i)

pub bit-two_pow : (j i : ℕ) → bit (2 ^ j) i ≡ (if i == j then 1 else 0)
unfolding bit
bit-two_pow zero zero = refl
bit-two_pow zero (suc i) = ground (arith, bit-zero i)
bit-two_pow (suc j) zero = ground (arith, pow-suc 2 j)
bit-two_pow (suc j) (suc i) =
    let e : 2 ^ suc j / 2 ≡ 2 ^ j = omega (arith, pow-suc 2 j) in
    rw e (ground (arith, bit-two_pow j i))

-- `~m` in a word of `n` bits.
pub bit_complement : (n m i : ℕ) → m < 2 ^ n → i < n → bit (2 ^ n - 1 - m) i ≡ 1 - bit m i
unfolding bit
bit_complement zero m i h k = elim k [ ]
bit_complement (suc n) m zero h k = omega (arith, pow-suc 2 n)
bit_complement (suc n) m (suc i) h k =
    let e : (2 ^ suc n - 1 - m) / 2 ≡ 2 ^ n - 1 - m / 2 = omega (arith, pow-suc 2 n) in
    rw e (bit_complement n (m / 2) i (omega (arith, pow-suc 2 n)) (omega arith))

pub bit_or-lt : (n a b : ℕ) → a < 2 ^ n → b < 2 ^ n → bit_or a b < 2 ^ n
bit_or-lt zero zero zero h k = omega arith
bit_or-lt zero zero (suc b) h k = absurd (omega arith)
bit_or-lt zero (suc a) b h k = absurd (omega arith)
bit_or-lt (suc n) a b h k = omega (
  arith,
  pow-suc 2 n,
  bit_or-halves a b,
  bit_or-lt n (a / 2) (b / 2) (omega (arith, pow-suc 2 n)) (omega (arith, pow-suc 2 n)),
)

pub bit_and-le : (a b : ℕ) → bit_and a b ≤ a
bit_and-le a b = le_below a a b (le_refl a)
  where
    le_below : (n a b : ℕ) → a ≤ n → bit_and a b ≤ a
    le_below n zero b h = omega (arith, bit_and-bitwise 0 b)
    le_below zero (suc a) b h = elim h [ ]
    le_below (suc n) (suc a) b h =
        omega (arith, bit_and-halves (suc a) b, le_below n (suc a / 2) (b / 2) (omega arith))

-- `w >> i & 1` reads bit `i`.
pub shift-bit : (w i : ℕ) → w / 2 ^ i % 2 ≡ bit w i
unfolding bit
shift-bit w zero = omega arith
shift-bit w (suc i) =
    let e : w / 2 ^ suc i ≡ w / 2 / 2 ^ i = rw (pow-succ' 2 i, ← div-div-eq-div-mul w 2 (2 ^ i)) in
    rw e (shift-bit (w / 2) i)

mod_double : (a m : ℕ) → a % (2 * m) ≡ a / 2 % m * 2 + a % 2
mod_double a m =
    let same : m * (a / (2 * m)) ≡ m * (a / 2 / m) = rw (div-div-eq-div-mul a 2 m) in
    omega (arith, div-add-mod a (2 * m), div-add-mod (a / 2) m, same)

and_zero : (n a : ℕ) → a ≤ n → bit_and a 0 ≡ 0
and_zero n zero h = refl
and_zero zero (suc a) h = elim h [ ]
and_zero (suc n) (suc a) h =
    omega (arith, bit_and-halves (suc a) 0, and_zero n (suc a / 2) (omega arith))

-- `x & (2 ^ n - 1)` is the remainder by `2 ^ n`.
pub bit_and-mask : (n a : ℕ) → bit_and a (2 ^ n - 1) ≡ a % 2 ^ n
bit_and-mask zero a = omega (arith, and_zero a a (le_refl a))
bit_and-mask (suc n) a =
    let halves : (2 ^ suc n - 1) / 2 ≡ 2 ^ n - 1 = omega (arith, pow-suc 2 n) in
    let ih : bit_and (a / 2) ((2 ^ suc n - 1) / 2) ≡ a / 2 % 2 ^ n =
      rw halves (bit_and-mask n (a / 2)) in
    let double : a % 2 ^ suc n ≡ a / 2 % 2 ^ n * 2 + a % 2 =
      rw (pow-succ' 2 n) (mod_double a (2 ^ n)) in
    let pos : 1 ≤ 2 ^ n = one-le-pow n 2 (omega arith) in
    omega (arith, bit_and-halves a (2 ^ suc n - 1), ih, double, pow-suc 2 n)

or_zero : (n a : ℕ) → a ≤ n → bit_or a 0 ≡ a
or_zero n zero h = refl
or_zero zero (suc a) h = elim h [ ]
or_zero (suc n) (suc a) h =
    omega (arith, bit_or-halves (suc a) 0, or_zero n (suc a / 2) (omega arith))

-- `(q << k) | r` is a sum when `r` fits `k` bits.
pub bit_or-shifted : (k q r : ℕ) → r < 2 ^ k → bit_or (q * 2 ^ k) r ≡ q * 2 ^ k + r
bit_or-shifted zero q r h =
    let e : r ≡ 0 = omega arith in rw e (omega (arith, or_zero (q * 1) (q * 1) (le_refl _)))
bit_or-shifted (suc k) q r h =
    let e : q * 2 ^ suc k ≡ q * 2 ^ k * 2 = rw (pow-suc 2 k) (omega arith) in
    let half : q * 2 ^ suc k / 2 ≡ q * 2 ^ k = omega arith in
    let ih : bit_or (q * 2 ^ suc k / 2) (r / 2) ≡ q * 2 ^ k + r / 2 =
      rw half (bit_or-shifted k q (r / 2) (omega (arith, pow-suc 2 k))) in
    omega (arith, bit_or-halves (q * 2 ^ suc k) r, ih)
