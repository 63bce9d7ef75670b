-- ===== src/Tests/Lists.antt =====
-- The theorems on bitsets, size classes, lists of controls and byte order at concrete inputs.
use mathlib.Core.Logic.{inl, inr}
use lightcache.Base.{
  Bool-cases, ℕ, ◌+◌, ◌-◌, ◌*◌, ◌≡◌, refl, none, some, [], ◌∷◌, arith, replicate, true, ltb, ◌==◌,
  if◌then◌else◌,
}
use lightcache.Base.Run.{Returns}
use lightcache.Base.{leb, Bool}
use lightcache.Util.Sendbuf.{maximize_sndbuf, IsMaximized, maximize_sndbuf-IsLargest}
use lightcache.Base.Bits.Lowest.{trailing_zeros}
use lightcache.Slab.Bitset.{Bitset, word_count, set_bit, nlz64, ff_setbit, IsBitset, slot}
use lightcache.Slab.Bitset.Words.{set_bit-Returns, replicate-IsBitset}
use lightcache.Slab.Bitset.Search.{nlz64-trailing_zeros, IsFirstSet, ff_setbit-IsFirstSet}
use lightcache.Slab.SizeClass.{size_to_cache}
use lightcache.Slab.SizeClass.Ceiling.{IsIncreasing, IsCeiling, size_to_cache-IsCeiling}
use lightcache.Slab.Links.{Ctls, Links, rem, rem_and_push}
use lightcache.Slab.Links.Chain.{Represents}
use lightcache.Slab.Links.Unlink.{Removed}
use lightcache.Slab.Links.Bypass.{erase}
use lightcache.Slab.Links.Move.{Apart, Moved, rem_and_push-Moved}
use lightcache.Slab.Links.Remove.{rem-Removed}
use lightcache.Protocol.Bytes.{be64}
use lightcache.Util.{htonll, ntohll}
use lightcache.Util.Swap.{memory_bytes, htonll-be64, ntohll-htonll}

abbrev words : Bitset
words = replicate word_count 12

words-IsBitset : IsBitset words
words-IsBitset = replicate-IsBitset 12 (omega arith)

-- Two bits are free in each word, the third and the fourth.
first_free : ff_setbit words ≡ some 2
unfolding ff_setbit
first_free = refl

ff_setbit-IsFirstSet_example : IsFirstSet words (ff_setbit words)
ff_setbit-IsFirstSet_example = ff_setbit-IsFirstSet words words-IsBitset

set_bit-Returns_example :
    Returns
      (set_bit words 65)
      λ r. IsBitset r × ((i : ℕ) → slot r i ≡ (if i == 65 then 1 else slot words i))
set_bit-Returns_example = set_bit-Returns words-IsBitset 65 (omega arith)

nlz64-trailing_zeros_example : nlz64 96 ≡ trailing_zeros 64 96
nlz64-trailing_zeros_example = nlz64-trailing_zeros 96 (omega arith) (omega arith)

-- The sizes 24, 48, 72, ...
abbrev sizes : ℕ → ℕ
sizes i = 24 * (i + 1)

sizes-IsIncreasing : IsIncreasing sizes 9
sizes-IsIncreasing i j h k = omega arith

size_to_cache-IsCeiling_example : IsCeiling sizes 9 50 (size_to_cache (some sizes) 9 50)
size_to_cache-IsCeiling_example =
    size_to_cache-IsCeiling sizes 9 50 sizes-IsIncreasing (omega arith) (omega arith)

size_to_cache_middle : size_to_cache (some sizes) 9 50 ≡ some 2
unfolding size_to_cache
size_to_cache_middle = refl

-- The controls 1, 2 and 3 in a list, and control 0 outside it.
abbrev three : Ctls
three i = record {
  nused = 0;
  nindex = i;
  slots = words;
  next = if ltb i 3 then some (i + 1) else none;
  prev = if ltb 1 i then some (i - 1) else none;
  cache = none;
}

abbrev listed : Links
listed = record { head = some 1; tail = some 3 }

three-Represents : Represents three listed (1 ∷ 2 ∷ 3 ∷ [])
three-Represents = record {
  head = refl;
  tail = refl;
  chain = (refl, refl, (refl, refl, (refl, tt, tt)));
  distinct = ground arith;
}

rem-Removed_example :
    Returns (rem 4 three listed 2) λ r. (r.2 ≡ true) × Removed three (1 ∷ 2 ∷ 3 ∷ []) 2 (r.0, r.1)
rem-Removed_example =
    rem-Removed 4 three listed 2 (1 ∷ 2 ∷ 3 ∷ []) three-Represents (inr (inl refl)) (omega arith)

-- A list of control 4 alone.
abbrev other : Links
other = record { head = some 4; tail = some 4 }

other-Represents : Represents three other (4 ∷ [])
other-Represents = record { head = refl; tail = refl; chain = (refl, tt, tt); distinct = (tt, tt) }

three-Apart : Apart (1 ∷ 2 ∷ 3 ∷ []) (4 ∷ [])
three-Apart q = elim (Bool-cases (q == 4)) [
  | inl e ↦ inl (ground arith)
  | inr e ↦ inr (ground arith)
]

rem_and_push-Moved_example : Returns (rem_and_push 4 three listed other 3) λ r.
    (r.3 ≡ true)
    × Moved three (1 ∷ 2 ∷ 3 ∷ []) (4 ∷ []) (erase 3 (1 ∷ 2 ∷ 3 ∷ [])) (3 ∷ 4 ∷ []) r.0 r.1 r.2
rem_and_push-Moved_example =
    rem_and_push-Moved 4 three listed other 3 (1 ∷ 2 ∷ 3 ∷ []) (4 ∷ []) three-Represents
      other-Represents three-Apart (inr (inr (inl refl))) (omega arith)

htonll-be64_example : memory_bytes 8 (htonll 0x0102030405060708) ≡ be64 0x0102030405060708
htonll-be64_example = htonll-be64 0x0102030405060708

ntohll-htonll_example : ntohll (htonll 0x0102030405060708) ≡ 0x0102030405060708
ntohll-htonll_example = ntohll-htonll 0x0102030405060708 (omega arith)

-- A kernel that accepts send buffers up to 200000 bytes.
abbrev up_to : ℕ → Bool
up_to n = leb n 200000

maximize_sndbuf-IsLargest_example : IsMaximized up_to 16384 (maximize_sndbuf up_to (some 16384))
maximize_sndbuf-IsLargest_example =
    maximize_sndbuf-IsLargest up_to 16384 (λ m n le taken. ground (arith, le, taken))
