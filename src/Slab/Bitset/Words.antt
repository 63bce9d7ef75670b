-- ===== src/Slab/Bitset/Words.antt =====
-- What `set_bit`, `clear_bit` and `get_bit` do to the bits of the array.
use lightcache.Base.{
  replicate, length-replicate, get_or-replicate, get_or-replicate_le, ap, ◌-◌, ℕ, ◌/◌, ◌^◌, ◌≤◌,
  ◌<◌, ◌≡◌, refl, ◌∙◌, true, bit_and, bit_or, arith, length, get_or, set, length-set, get_or-set,
  ltb, ◌==◌, if◌then◌else◌, all_below, all_below_sound,
}
use lightcache.Base.Bits.{
  bit, bit-zero, bit-le-one, bit-bit_or, bit-bit_and, bit-two_pow, bit_complement, bit_or-lt,
  bit_and-le, shift-bit, bit_and-mask,
}
use lightcache.Base.Run.{ok, fault, assert_failed, Returns}
use lightcache.Slab.Bitset.{
  word_count, Bitset, bit_count, bindex, bloffset, complement64, set_bit, clear_bit, get_bit,
  IsBitset, slot,
}

two_pow_table : all_below 64 (λ k. ltb (2 ^ k) (2 ^ 64)) ≡ true
unfolding all_below
two_pow_table = refl

two_pow_fits : (k : ℕ) → k < 64 → 2 ^ k < 2 ^ 64
two_pow_fits k h = ground (arith, all_below_sound 64 (λ k. ltb (2 ^ k) (2 ^ 64)) k two_pow_table)

module _ {bts : Bitset} (valid : IsBitset bts) (b : ℕ) (inside : b < bit_count) where
  index_inside : bindex b < length bts
  index_inside = rw valid.full (omega arith)

  -- A new word for bit `b` whose bits differ from the old ones at `b` alone, where they give `c`.
  write_word :
      (v c : ℕ)
      → v < 2 ^ 64
      → ((j : ℕ)
          → j < 64
          → bit v j ≡ (if j == bloffset b then c else bit (get_or bts (bindex b) 0) j))
      → IsBitset (set bts (bindex b) v)
        × ((i : ℕ) → slot (set bts (bindex b) v) i ≡ (if i == b then c else slot bts i))
  unfolding slot
  write_word v c fits bits = (
    record {
      full = length-set bts (bindex b) v ∙ valid.full;
      words = λ k. rw (get_or-set, index_inside) (ground (arith, valid.words k));
    },
    λ i. rw (get_or-set, index_inside) (ground (arith, bits (bloffset i))),
  )

  -- `set_bit` passes its assertion, sets bit `b`, and keeps every other bit and the array's shape.
  pub set_bit-Returns :
      Returns
        (set_bit bts b)
        λ r. IsBitset r × ((i : ℕ) → slot r i ≡ (if i == b then 1 else slot bts i))
  unfolding set_bit
  set_bit-Returns =
      let w = get_or bts (bindex b) 0 in
      let mask = 2 ^ bloffset b in
      let fits =
        bit_or-lt 64 w mask (valid.words (bindex b)) (two_pow_fits (bloffset b) (omega arith)) in
      (
        set bts (bindex b) (bit_or w mask),
        ground arith,
        write_word (bit_or w mask) 1 fits
            (λ j h. rw (bit-bit_or, bit-two_pow) (ground (arith, bit-le-one w j))),
      )

  -- `clear_bit` passes its assertion, clears bit `b`, and keeps every other bit and the shape.
  pub clear_bit-Returns :
      Returns
        (clear_bit bts b)
        λ r. IsBitset r × ((i : ℕ) → slot r i ≡ (if i == b then 0 else slot bts i))
  unfolding clear_bit
  clear_bit-Returns =
      let w = get_or bts (bindex b) 0 in
      let mask = 2 ^ bloffset b in
      let fits = bit_and-le w (complement64 mask) in
      (
        set bts (bindex b) (bit_and w (complement64 mask)),
        ground arith,
        write_word (bit_and w (complement64 mask)) 0 (omega (arith, fits, valid.words (bindex b)))
            (λ j h.
              rw
                (
                  bit-bit_and,
                  bit_complement 64 mask j (two_pow_fits (bloffset b) (omega arith)) h,
                  bit-two_pow,
                )
                (ground (arith, bit-le-one w j))),
      )

  -- `get_bit` passes its assertion and reads bit `b`.
  pub get_bit_lem : get_bit bts b ≡ ok (slot bts b)
  unfolding get_bit slot
  get_bit_lem =
      let w = get_or bts (bindex b) 0 in
      let read : bit_and (w / 2 ^ bloffset b) 1 ≡ bit w (bloffset b) =
        bit_and-mask 1 (w / 2 ^ bloffset b) ∙ shift-bit w (bloffset b) in
      rw read (ground arith)

-- Outside the array all three stop at their assertion.
pub bit_out_of_range :
    (bts : Bitset) (b : ℕ)
    → bit_count ≤ b
    → (set_bit bts b ≡ fault assert_failed)
      × (clear_bit bts b ≡ fault assert_failed)
      × (get_bit bts b ≡ fault assert_failed)
unfolding set_bit clear_bit get_bit
bit_out_of_range bts b h = (ground arith, ground arith, ground arith)

-- An array of equal words is well formed.
pub replicate-IsBitset : (w : ℕ) → w < 2 ^ 64 → IsBitset (replicate word_count w)
replicate-IsBitset w h = record {
  full = length-replicate word_count w;
  words = λ k. omega (arith, get_or-replicate_le word_count k w);
}

pub slot-le-one : (bts : Bitset) (b : ℕ) → slot bts b ≤ 1
unfolding slot
slot-le-one bts b = bit-le-one (get_or bts (bindex b) 0) (bloffset b)

-- Every bit of an array of full words is set.
pub full_slot : (b : ℕ) → b < bit_count → slot (replicate word_count (2 ^ 64 - 1)) b ≡ 1
unfolding slot
full_slot b inside =
    ap (λ w. bit w (bloffset b))
      (get_or-replicate word_count (bindex b) (2 ^ 64 - 1) 0 (omega (arith, inside)))
    ∙ bit_complement 64 0 (bloffset b) (omega arith) (omega arith)
    ∙ ap (λ x. 1 - x) (bit-zero (bloffset b))
