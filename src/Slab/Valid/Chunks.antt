-- ===== src/Slab/Valid/Chunks.antt =====
-- The numbers of chunks in a slab, and their bytes.
use lightcache.Base.{ℕ, suc, ◌+◌, ◌*◌, ◌/◌, ◌<◌, ◌≤◌, ◌≡◌, ◌∙◌, ap, arith}
use native.Mathlib.Nat.{
  div-mul-le_self, le-div_iff_mul-le, mul_comm, mul-suc, mul-le-mul_left, mul-le-mul_right,
  mul-div_cancel_left, mul-suc,
}
use lightcache.Base.Sums.{sum, sum-ge, term_le-sum}
use lightcache.Slab.Bitset.{Bitset, slab_size, bit_count, slot}
use lightcache.Slab.Bitset.Words.{slot-le-one}
use lightcache.Slab.Links.{SlabCtl}
use lightcache.Slab.Places.{Place, free, partial, full}
use lightcache.Slab.Valid.{Shape, IsShape, taken, IsSlab, size_at}

module _ (sh : Shape) (is : IsShape sh) (c : ℕ) (inside : c < sh.cache_count) where
  pub chunks-pos : 1 ≤ sh.chunks c
  chunks-pos =
      let pos : 0 < sh.size c = omega (arith, is.least c inside) in
      let one : 1 ≤ slab_size / sh.size c =
        (le-div_iff_mul-le {x = 1} {y = slab_size} pos).1 (omega (arith, is.most c inside)) in
      omega (arith, one, is.fill c inside)

  pub chunks_bytes : sh.size c * sh.chunks c ≤ slab_size
  chunks_bytes =
      let e : sh.size c * sh.chunks c ≡ slab_size / sh.size c * sh.size c =
        ap (λ n. sh.size c * n) (is.fill c inside) ∙ mul_comm (sh.size c) (slab_size / sh.size c) in
      omega (arith, e, div-mul-le_self slab_size (sh.size c))

  pub chunks-le : sh.chunks c ≤ bit_count
  chunks-le =
      let least : 20 * sh.chunks c ≤ sh.size c * sh.chunks c =
        mul-le-mul_right (sh.chunks c) (is.least c inside) in
      omega (arith, least, chunks_bytes)

  -- A chunk ends within the slab.
  pub chunk_end : (k : ℕ) → k < sh.chunks c → sh.size c * k + sh.size c ≤ slab_size
  chunk_end k below =
      let step : sh.size c * suc k ≤ sh.size c * sh.chunks c = mul-le-mul_left (sh.size c) below in
      omega (arith, step, mul-suc (sh.size c) k, chunks_bytes)

  pub chunk_index : (k : ℕ) → sh.size c * k / sh.size c ≡ k
  chunk_index k = mul-div_cancel_left k (omega (arith, is.least c inside))

  -- A slab with fewer allocated chunks than it has, and none beyond them, has a free one among them.
  pub free_chunk :
      (bts : Bitset) (n : ℕ)
      → n < sh.chunks c
      → n ≡ sum (taken bts) bit_count
      → ((k : ℕ) → k < sh.chunks c → slot bts k ≡ 0)
      → ⊥
  free_chunk bts n less counted all = omega (
    arith,
    less,
    counted,
    sum-ge (taken bts) bit_count (sh.chunks c) chunks-le (λ k l. omega (arith, all k l)),
  )

-- A slab without allocated chunks has all slots free.
pub all_free :
    (bts : Bitset) → sum (taken bts) bit_count ≡ 0 → (k : ℕ) → k < bit_count → slot bts k ≡ 1
all_free bts none_taken k below =
    omega (arith, none_taken, slot-le-one bts k, term_le-sum (taken bts) bit_count k below)

pub bytes-le :
    (sh : Shape) (is : IsShape sh) (ctl : SlabCtl) (i : ℕ) (p : Place)
    → IsSlab sh ctl i p
    → ctl.nused * size_at sh ctl.cache ≤ slab_size
bytes-le sh is ctl i free slab = rw slab.fits (omega arith)
bytes-le sh is ctl i (partial c) slab =
    let (inside, owner, less, _) = slab.fits in
    let most : ctl.nused * sh.size c ≤ sh.chunks c * sh.size c =
      mul-le-mul_right (sh.size c) (omega (arith, less)) in
    rw owner (omega (arith, most, mul_comm (sh.chunks c) (sh.size c), chunks_bytes sh is c inside))
bytes-le sh is ctl i (full c) slab =
    let (inside, owner, same, _) = slab.fits in
    rw (owner, same)
      (omega (arith, mul_comm (sh.chunks c) (sh.size c), chunks_bytes sh is c inside))
