-- ===== src/Util/Swap.antt =====
-- `li_swap64` and the bytes of a number in memory.
use lightcache.Base.{
  ℕ, zero, suc, ◌+◌, ◌*◌, ◌/◌, ◌%◌, ◌^◌, ◌<◌, ◌≡◌, ◌∙◌, List, [], ◌∷◌, bit_and, arith,
}
use lightcache.Base.Bits.{bit_or-shifted, bit_and-mask}
use native.Mathlib.Nat.{div-div-eq-div-mul}
use lightcache.Protocol.Bytes.{be64}
use lightcache.Util.{swap_loop, li_swap64, htonll, ntohll}

-- One round, while the bytes so far leave room for one more.
swap_round :
    (n rv x : ℕ)
    → rv < 2 ^ 56
    → swap_loop (suc n) rv x ≡ swap_loop n (rv * 2 ^ 8 + x % 2 ^ 8) (x / 2 ^ 8)
unfolding swap_loop
swap_round n rv x h =
    let room : rv * 2 ^ 8 % 2 ^ 64 ≡ rv * 2 ^ 8 = omega arith in
    let low : bit_and x 0xff ≡ x % 2 ^ 8 = bit_and-mask 8 x in
    rw (room, low, bit_or-shifted 8 rv (x % 2 ^ 8) (omega arith))

-- The digits of `x` in base 256, from the lowest on, as a number with the lowest digit in front.
reversed : ℕ → ℕ
reversed x =
    let d₁ = x / 256 in
    let d₂ = d₁ / 256 in
    let d₃ = d₂ / 256 in
    let d₄ = d₃ / 256 in
    let d₅ = d₄ / 256 in
    let d₆ = d₅ / 256 in
    let d₇ = d₆ / 256 in
    (((((((0 + x % 256) * 256 + d₁ % 256) * 256 + d₂ % 256) * 256 + d₃ % 256) * 256 + d₄ % 256)
              * 256
            + d₅ % 256)
          * 256
        + d₆ % 256)
      * 256
    + d₇ % 256

li_swap64-reversed : (x : ℕ) → li_swap64 x ≡ reversed x
unfolding li_swap64 reversed
li_swap64-reversed x =
    swap_round 7 0 x (omega arith)
    ∙ swap_round 6 _ _ (omega arith)
    ∙ swap_round 5 _ _ (omega arith)
    ∙ swap_round 4 _ _ (omega arith)
    ∙ swap_round 3 _ _ (omega arith)
    ∙ swap_round 2 _ _ (omega arith)
    ∙ swap_round 1 _ _ (omega arith)
    ∙ swap_round 0 _ _ (omega arith)

high_digits : (a x : ℕ) → (a * 256 + x % 256) / 256 ≡ a
high_digits a x = omega arith

low_digit : (a x : ℕ) → (a * 256 + x % 256) % 256 ≡ x % 256
low_digit a x = omega arith

first_digit : (x : ℕ) → (0 + x % 256) % 256 ≡ x % 256
first_digit x = omega arith

-- The `n` bytes of a number in the memory of a little-endian machine.
pub memory_bytes : ℕ → ℕ → List ℕ
memory_bytes zero x = []
memory_bytes (suc n) x = x % 256 ∷ memory_bytes n (x / 256)

-- `htonll` leaves in memory the eight bytes of its argument with the highest first.
pub htonll-be64 : (v : ℕ) → memory_bytes 8 (htonll v) ≡ be64 v
unfolding htonll memory_bytes be64 reversed
htonll-be64 v =
    rw (li_swap64-reversed v) (simp (high_digits, low_digit, first_digit) (simp div-div-eq-div-mul))

-- `ntohll` undoes `htonll` on every 64-bit number.
pub ntohll-htonll : (v : ℕ) → v < 2 ^ 64 → ntohll (htonll v) ≡ v
unfolding htonll ntohll reversed
ntohll-htonll v fits =
    rw (li_swap64-reversed v, li_swap64-reversed)
      (simp (high_digits, low_digit, first_digit) (omega arith))
