-- ===== src/Slab/Valid/Owner.antt =====
-- The slab of an allocated chunk, and its slots once the chunk is given back.
use lightcache.Base.{
  ℕ, ◌+◌, ◌-◌, ◌<◌, ◌≡◌, ◌≢◌, ◌⊎◌, ◌∙◌, refl, ap, sym, inl, inr, true, false, some, arith, ltb,
  ◌==◌, Bool-cases, some-injective,
}
use mathlib.Core.Path.{subst}
use lightcache.Base.Run.{Returns}
use lightcache.Base.Sums.{sum, sum_change}
use lightcache.Slab.Bitset.{Bitset, bit_count, IsBitset, slot, set_bit}
use lightcache.Slab.Bitset.Words.{set_bit-Returns}
use lightcache.Slab.Links.{SlabCtl}
use lightcache.Slab.Places.{Place, free, partial, full}
use lightcache.Slab.Valid.{Shape, taken, IsSpare, IsSlab}
use lightcache.Slab.Valid.Chunks.{all_free}

-- Slab control `ctl` of cache `c` is in one of the lists of the cache.
pub record IsOwned (sh : Shape) (ctl : SlabCtl) (p : Place) (c k : ℕ) : Type 0 where
  pub inside : c < sh.cache_count
  pub low : k < sh.chunks c
  pub spare : IsSpare (sh.chunks c) ctl.slots
  pub list :
      ((p ≡ partial c) × (ctl.nused < sh.chunks c)) ⊎ ((p ≡ full c) × (ctl.nused ≡ sh.chunks c))

low_slot : (n : ℕ) (bts : Bitset) (k : ℕ) → IsSpare n bts → slot bts k ≡ 0 → k < bit_count → k < n
low_slot n bts k spare e below = elim (Bool-cases (ltb k n)) [
  | inl h ↦ ground (arith, h)
  | inr h ↦ absurd (omega (arith, e, spare k (ground (arith, h)) below))
]

pub IsSlab-IsOwned :
    (sh : Shape) (ctl : SlabCtl) (i : ℕ) (p : Place) (c k : ℕ)
    → IsSlab sh ctl i p
    → ctl.cache ≡ some c
    → slot ctl.slots k ≡ 0
    → k < bit_count
    → IsOwned sh ctl p c k
IsSlab-IsOwned sh ctl i free c k is owner e below =
    absurd (omega (arith, e, all_free ctl.slots (sym is.counted ∙ is.fits) k below))
IsSlab-IsOwned sh ctl i (partial d) c k is owner e below =
    let (inside, cache, less, spare) = is.fits in
    let s : d ≡ c = some-injective (sym cache ∙ owner) in
    subst (λ x. IsOwned sh ctl (partial d) x k) s
      (record {
        inside = inside;
        low = low_slot (sh.chunks d) ctl.slots k spare e below;
        spare = spare;
        list = inl (refl, less);
      })
IsSlab-IsOwned sh ctl i (full d) c k is owner e below =
    let (inside, cache, same, spare) = is.fits in
    let s : d ≡ c = some-injective (sym cache ∙ owner) in
    subst (λ x. IsOwned sh ctl (full d) x k) s
      (record {
        inside = inside;
        low = low_slot (sh.chunks d) ctl.slots k spare e below;
        spare = spare;
        list = inr (refl, same);
      })

-- The slots after slot `k` has been given back.
pub record IsReturned (bts bts' : Bitset) (k : ℕ) : Type 0 where
  pub bitset : IsBitset bts'
  pub here : slot bts' k ≡ 1
  pub others : (l : ℕ) → l ≢ k → slot bts' l ≡ slot bts l
  pub count : sum (taken bts) bit_count ≡ sum (taken bts') bit_count + 1

pub set_bit-IsReturned :
    (bts : Bitset) (k : ℕ)
    → IsBitset bts
    → k < bit_count
    → slot bts k ≡ 0
    → Returns (set_bit bts k) λ bts'. IsReturned bts bts' k
set_bit-IsReturned bts k valid below e =
    let (bts', run, (valid', bits)) = set_bit-Returns valid k below in
    let here : slot bts' k ≡ 1 = bits k ∙ (let s : k == k ≡ true = ground arith in rw s) in
    let others : (l : ℕ) → l ≢ k → slot bts' l ≡ slot bts l =
      λ l ne. bits l ∙ (let s : l == k ≡ false = ground (arith, ne) in rw s) in
    (
      bts',
      run,
      record {
        bitset = valid';
        here = here;
        others = others;
        count = omega (
          arith,
          here,
          e,
          sum_change (taken bts) (taken bts') bit_count k below
              (λ l ne. ap (λ x. 1 - x) (others l ne)),
        );
      },
    )
