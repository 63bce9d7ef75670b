-- ===== src/Slab/Bitset/Search.antt =====
-- The search for the first free slot: the De Bruijn table, and the loop over the words.
use lightcache.Base.{
  ℕ, suc, ◌+◌, ◌-◌, ◌*◌, ◌/◌, ◌%◌, ◌^◌, ◌<◌, ◌≡◌, refl, sym, ◌∙◌, true, Option, none, some, [], ◌∷◌,
  arith, length, get_or, ltb, ◌==◌, ==_iff, inl, inr, Bool-cases, all_below, all_below_sound,
}
use mathlib.Core.Path.{subst}
use lightcache.Base.Bits.{bit, bit-zero}
use lightcache.Base.Bits.Lowest.{
  trailing_zeros, trailing_zeros-lt, bit-trailing_zeros, bit_below_trailing_zeros, and_negation,
}
use lightcache.Slab.Bitset.{
  Bitset, negate64, debruij_tab, nlz64, ff_setbit_from, ff_setbit, IsBitset, slot,
}

-- The upper six bits of a power of two times the De Bruijn constant index its exponent.
debruijn_table :
    all_below 64 (λ k. get_or debruij_tab (2 ^ k * 0x022FDD63CC95386D % 2 ^ 64 / 2 ^ 58) 0 == k)
    ≡ true
unfolding all_below
debruijn_table = refl

debruijn_lookup :
    (k : ℕ) → k < 64 → get_or debruij_tab (2 ^ k * 0x022FDD63CC95386D % 2 ^ 64 / 2 ^ 58) 0 ≡ k
debruijn_lookup k h = (==_iff _ k).0 (all_below_sound 64 _ k debruijn_table h)

-- On a non-zero 64-bit word, `nlz64` counts the zeros below the lowest set bit.
pub nlz64-trailing_zeros : (x : ℕ) → 0 < x → x < 2 ^ 64 → nlz64 x ≡ trailing_zeros 64 x
unfolding nlz64
nlz64-trailing_zeros x pos fits =
    let e : negate64 x ≡ 2 ^ 64 - x = omega arith in
    rw (e, and_negation 64 x pos fits) (debruijn_lookup _ (trailing_zeros-lt 64 x pos fits))

-- `o` is the first set bit of the array, or `none` if there is none.
abbrev pub IsFirstSet : Bitset → Option ℕ → Type 0
IsFirstSet bts none = (q : ℕ) → slot bts q ≡ 0
IsFirstSet bts (some p) =
    (p < length bts * 64) × (slot bts p ≡ 1) × ((q : ℕ) → q < p → slot bts q ≡ 0)

abbrev shifted : ℕ → Option ℕ → Option ℕ
shifted k none = none
shifted k (some p) = some (p + k)

slot_head : (w : ℕ) (ws : Bitset) (q : ℕ) → q < 64 → slot (w ∷ ws) q ≡ bit w q
unfolding slot
slot_head w ws q h =
    let e : q / 64 ≡ 0 = omega arith in let f : q % 64 ≡ q = omega arith in rw (e, f)

slot_tail : (w : ℕ) (ws : Bitset) (q : ℕ) → slot (w ∷ ws) (q + 64) ≡ slot ws q
unfolding slot
slot_tail w ws q =
    let e : (q + 64) / 64 ≡ suc (q / 64) = omega arith in
    let f : (q + 64) % 64 ≡ q % 64 = omega arith in rw (e, f)

slot_zero_head :
    (ws : Bitset) (p : ℕ)
    → ((q : ℕ) → q < p → slot ws q ≡ 0)
    → (q : ℕ) → q < p + 64
    → slot (0 ∷ ws) q ≡ 0
slot_zero_head ws p rest q h = elim (Bool-cases (ltb q 64)) [
  | inl low ↦ slot_head 0 ws q (ground arith) ∙ bit-zero q
  | inr high ↦
      let e : q ≡ q - 64 + 64 = ground arith in
      rw e (slot_tail 0 ws (q - 64) ∙ rest (q - 64) (ground arith))
]

skip_zero : (ws : Bitset) (o : Option ℕ) → IsFirstSet ws o → IsFirstSet (0 ∷ ws) (shifted 64 o)
skip_zero ws none first = λ q. slot_zero_head ws q (λ r _. first r) q (omega arith)
skip_zero ws (some p) (inside, here, below) =
    (omega arith, slot_tail 0 ws p ∙ here, slot_zero_head ws p below)

shifted_twice : (o : Option ℕ) (i : ℕ) → shifted ((i + 1) * 64) o ≡ shifted (i * 64) (shifted 64 o)
shifted_twice none i = refl
shifted_twice (some p) i = ground arith

loop-IsFirstSet :
    (i : ℕ) (ws : Bitset)
    → ((k : ℕ) → get_or ws k 0 < 2 ^ 64)
    → (o : Option ℕ) × (ff_setbit_from i ws ≡ shifted (i * 64) o) × IsFirstSet ws o
unfolding ff_setbit_from
loop-IsFirstSet i [] fits = (none, refl, λ q. unfold slot in bit-zero (q % 64))
loop-IsFirstSet i (w ∷ ws) fits =
    let (o, run, first) = loop-IsFirstSet (i + 1) ws (λ k. fits (suc k)) in
    elim (Bool-cases (w == 0)) [
      | inl empty ↦ (
        shifted 64 o,
        rw empty (run ∙ shifted_twice o i),
        subst (λ z. IsFirstSet (z ∷ ws) (shifted 64 o)) (sym ((==_iff w 0).0 empty))
            (skip_zero ws o first),
      )
      | inr used ↦
          let pos : 0 < w = ground arith in
          let t = trailing_zeros 64 w in
          let small : t < 64 = trailing_zeros-lt 64 w pos (fits 0) in
          (
            some t,
            rw (used, nlz64-trailing_zeros w pos (fits 0)),
            (
              omega arith,
              slot_head w ws t small ∙ bit-trailing_zeros 64 w pos (fits 0),
              λ q h. slot_head w ws q (omega arith) ∙ bit_below_trailing_zeros 64 w q h,
            ),
          )
    ]

-- `ff_setbit` gives the first set bit of a well-formed array, and -1 exactly when none is set.
pub ff_setbit-IsFirstSet : (bts : Bitset) → IsBitset bts → IsFirstSet bts (ff_setbit bts)
unfolding ff_setbit
ff_setbit-IsFirstSet bts valid =
    let (o, run, first) = loop-IsFirstSet 0 bts valid.words in
    let e : ff_setbit_from 0 bts ≡ o = run ∙ shifted_zero o in rw e first
  where
    shifted_zero : (o : Option ℕ) → shifted (0 * 64) o ≡ o
    shifted_zero none = refl
    shifted_zero (some p) = ground arith
