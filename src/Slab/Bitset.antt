-- ===== src/Slab/Bitset.antt =====
-- The bitset of a slab (src/slab.c): one bit for each slot, set while the slot is free.
pub mod Search
pub mod Words
use lightcache.Base.{
  ℕ, zero, suc, ◌+◌, ◌-◌, ◌*◌, ◌/◌, ◌%◌, ◌^◌, ◌<◌, ◌≡◌, List, [], ◌∷◌, Option, none, some, bit_and,
  bit_or, length, get_or, set, ltb, ◌==◌, if◌then◌else◌,
}
use lightcache.Base.Bits.{bit}
use lightcache.Base.Run.{Run, ok, assert, ◌>>=◌, ◌>>◌}

abbrev pub slab_size : ℕ
slab_size = 1024 * 1024

abbrev pub min_slab_chunk_size : ℕ
min_slab_chunk_size = 20

abbrev pub word_size_in_bits : ℕ
word_size_in_bits = 64

abbrev pub word_count : ℕ
word_count = slab_size / min_slab_chunk_size / word_size_in_bits + 1

abbrev pub bit_count : ℕ
bit_count = word_count * word_size_in_bits

-- `word_t words[WORD_COUNT]`
abbrev pub Bitset : Type 0
Bitset = List ℕ

abbrev pub bindex : ℕ → ℕ
bindex b = b / word_size_in_bits

abbrev pub bloffset : ℕ → ℕ
bloffset b = b % word_size_in_bits

-- `~w` and `-x` on a `uint64_t`
abbrev pub complement64 : ℕ → ℕ
complement64 w = 2 ^ 64 - 1 - w

abbrev pub negate64 : ℕ → ℕ
negate64 x = (2 ^ 64 - x) % 2 ^ 64

unfoldable pub set_bit : Bitset → ℕ → Run Bitset
set_bit bts b = do
  assert (ltb b bit_count)
  ok (set bts (bindex b) (bit_or (get_or bts (bindex b) 0) (2 ^ bloffset b)))

unfoldable pub clear_bit : Bitset → ℕ → Run Bitset
clear_bit bts b = do
  assert (ltb b bit_count)
  ok (set bts (bindex b) (bit_and (get_or bts (bindex b) 0) (complement64 (2 ^ bloffset b))))

unfoldable pub get_bit : Bitset → ℕ → Run ℕ
get_bit bts b = do
  assert (ltb b bit_count)
  ok (bit_and (get_or bts (bindex b) 0 / 2 ^ bloffset b) 1)

abbrev pub debruij_tab : List ℕ
debruij_tab =
    0 ∷ 1 ∷ 2 ∷ 53 ∷ 3 ∷ 7 ∷ 54 ∷ 27 ∷ 4 ∷ 38 ∷ 41 ∷ 8 ∷ 34 ∷ 55 ∷ 48 ∷ 28 ∷ 62 ∷ 5 ∷ 39 ∷ 46 ∷ 44
    ∷ 42 ∷ 22 ∷ 9 ∷ 24 ∷ 35 ∷ 59 ∷ 56 ∷ 49 ∷ 18 ∷ 29 ∷ 11 ∷ 63 ∷ 52 ∷ 6 ∷ 26 ∷ 37 ∷ 40 ∷ 33 ∷ 47
    ∷ 61 ∷ 45 ∷ 43 ∷ 21 ∷ 23 ∷ 58 ∷ 17 ∷ 10 ∷ 51 ∷ 25 ∷ 36 ∷ 32 ∷ 60 ∷ 20 ∷ 57 ∷ 16 ∷ 50 ∷ 31 ∷ 19
    ∷ 15 ∷ 30 ∷ 14 ∷ 13 ∷ 12 ∷ []

-- `debruij_tab[((x & -x) * 0x022FDD63CC95386DU) >> 58]`
unfoldable pub nlz64 : ℕ → ℕ
nlz64 x = get_or debruij_tab (bit_and x (negate64 x) * 0x022FDD63CC95386D % 2 ^ 64 / 2 ^ 58) 0

-- The loop of `ff_setbit` from word `i` on; `none` is the result -1.
unfoldable pub ff_setbit_from : ℕ → Bitset → Option ℕ
ff_setbit_from i [] = none
ff_setbit_from i (w ∷ ws) =
    let rest = ff_setbit_from (i + 1) ws in
    if w == 0 then rest else some (nlz64 w + i * word_size_in_bits)

unfoldable pub ff_setbit : Bitset → Option ℕ
unfolding ff_setbit_from nlz64
ff_setbit bts = ff_setbit_from 0 bts

-- The array has its full length, and each word fits 64 bits.
pub record IsBitset (bts : Bitset) : Type 0 where
  pub full : length bts ≡ word_count
  pub words : (k : ℕ) → get_or bts k 0 < 2 ^ 64

-- Bit `i` of the whole array.
pub slot : Bitset → ℕ → ℕ
slot bts i = bit (get_or bts (bindex i) 0) (bloffset i)
