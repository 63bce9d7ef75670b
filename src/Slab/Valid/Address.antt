-- ===== src/Slab/Valid/Address.antt =====
-- The offset that `scfree` computes from the address of a chunk, and the ranges of the chunks.
use lightcache.Base.{
  u32, ℕ, suc, ◌+◌, ◌*◌, ◌/◌, ◌%◌, ◌<◌, ◌≤◌, ◌≡◌, ◌≢◌, ◌⊎◌, ◌∙◌, ap, refl, sym, inl, inr, true,
  some, arith, ltb, leb, ◌==◌, ==_iff, Bool-cases, some-injective, if◌then◌else◌,
}
use mathlib.Core.Path.{subst}
use native.Mathlib.Nat.{mul-suc, mul-le-mul_left}
use lightcache.Base.Run.{Run, ok, fault, out_of_range, assert, ◌>>=◌, ◌>>◌}
use lightcache.Slab.Bitset.{slab_size, bit_count, slot, get_bit}
use lightcache.Slab.Bitset.Words.{get_bit_lem}
use lightcache.Slab.Links.{deref}
use lightcache.Slab.Manager.{Manager, SlabStats, Slabs}
use lightcache.Slab.Alloc.{give_back, pointer_offset, scfree_in}
use lightcache.Slab.Valid.{shape_of, IsAlloc, IsLive}
use lightcache.Slab.Valid.Chunks.{chunk_end, chunk_index}
use lightcache.Slab.Valid.Given.{address}
use lightcache.Slab.Valid.Owner.{IsOwned, IsSlab-IsOwned}

-- `scfree_in` from slab `sidx` on, with the offset in the slab
from_slab : Manager → SlabStats → ℕ → ℕ → Run Slabs
from_slab m stats sidx rest = do
  if ltb sidx m.slabctl_count then ok tt else fault out_of_range
  c ← deref (m.slab_ctls sidx).cache
  let cidx = rest / (m.caches c).chunk_size
  bit ← get_bit (m.slab_ctls sidx).slots cidx
  assert (bit == 0)
  give_back m stats c sidx cidx

-- `scfree_in` from the offset on
from_offset : Manager → SlabStats → ℕ → Run Slabs
from_offset m stats pdiff = do
  assert (leb pdiff (u32 (m.slabctl_count * slab_size)))
  from_slab m stats (pdiff / slab_size) (pdiff % slab_size)

scfree_in_lem :
    (m : Manager) (stats : SlabStats) (ptr : ℕ)
    → scfree_in m stats ptr ≡ from_offset m stats (pointer_offset m ptr)
unfolding scfree_in from_offset from_slab
scfree_in_lem m stats ptr = refl

from_offset_lem :
    (m : Manager) (stats : SlabStats) (pdiff : ℕ)
    → leb pdiff (u32 (m.slabctl_count * slab_size)) ≡ true
    → from_offset m stats pdiff ≡ from_slab m stats (pdiff / slab_size) (pdiff % slab_size)
unfolding from_offset
from_offset_lem m stats pdiff e = rw e

from_slab_lem :
    (m : Manager) (stats : SlabStats) (c i rest k bit : ℕ)
    → ltb i m.slabctl_count ≡ true
    → (m.slab_ctls i).cache ≡ some c
    → rest / (m.caches c).chunk_size ≡ k
    → get_bit (m.slab_ctls i).slots k ≡ ok bit
    → from_slab m stats i rest ≡ (assert (bit == 0) >> give_back m stats c i k)
unfolding from_slab
from_slab_lem m stats c i rest k bit inside owner at_slot read = rw (inside, owner, at_slot, read)

module _ (m : Manager) (stats : SlabStats) (is : IsAlloc m stats) (c i k : ℕ)
    (known : c < m.cache_count) (here : i < m.slabctl_count)
    (owner : (m.slab_ctls i).cache ≡ some c) (low : k < (m.caches c).chunk_count_perslab)
    (below : k < bit_count) where
  abbrev size : ℕ
  size = (m.caches c).chunk_size

  stops : size * k + size ≤ slab_size
  stops = chunk_end (shape_of m) is.shape c known k low

  least : 20 ≤ size
  least = is.shape.least c known

  abbrev pdiff : ℕ
  pdiff = i * slab_size + size * k

  offset : pointer_offset m (address m c i k) ≡ pdiff
  offset = omega (arith, stops, here, is.shape.few_slabs)

  bound : leb pdiff (u32 (m.slabctl_count * slab_size)) ≡ true
  bound = ground (arith, stops, here, is.shape.few_slabs)

  slab_index : pdiff / slab_size ≡ i
  slab_index = omega (arith, stops, least)

  slab_rest : pdiff % slab_size ≡ size * k
  slab_rest = omega (arith, stops, least)

  -- `scfree` finds the slab and the slot of a chunk from its address.
  pub scfree_in-address :
      scfree_in m stats (address m c i k)
      ≡ (assert (slot (m.slab_ctls i).slots k == 0) >> give_back m stats c i k)
  scfree_in-address =
      scfree_in_lem m stats (address m c i k)
      ∙ ap (from_offset m stats) offset
      ∙ from_offset_lem m stats pdiff bound
      ∙ (λ t. from_slab m stats (slab_index t) (slab_rest t))
      ∙ from_slab_lem m stats c i (size * k) k (slot (m.slab_ctls i).slots k) (ground (arith, here))
          owner (chunk_index (shape_of m) is.shape c known k)
          (get_bit_lem (is.state.slabs i here).bitset k below)

-- The bytes of one chunk end before those of the other start.
abbrev pub Before : ℕ → ℕ → ℕ → Type 0
Before start bytes next = start + bytes ≤ next

-- Slots `k` and `l` with chunks of the same size.
chunks_apart : (size k l : ℕ) → k < l → size * k + size ≤ size * l
chunks_apart size k l less =
    let step : size * suc k ≤ size * l = mul-le-mul_left size less in
    omega (arith, step, mul-suc size k)

module _ (m : Manager) (stats : SlabStats) (is : IsAlloc m stats) where
  live_owned :
      (c i k : ℕ) → IsLive m c i k → IsOwned (shape_of m) (m.slab_ctls i) (is.state.home i) c k
  live_owned c i k live =
      IsSlab-IsOwned (shape_of m) (m.slab_ctls i) i (is.state.home i) c k
        (is.state.slabs i live.inside) live.owner live.allocated live.below

  pub live_end :
      (c i k : ℕ)
      → IsLive m c i k
      → (m.caches c).chunk_size * k + (m.caches c).chunk_size ≤ slab_size
  live_end c i k live =
      let own = live_owned c i k live in chunk_end (shape_of m) is.shape c own.inside k own.low

  -- All bytes of an allocated chunk are in the slabs.
  pub live-inside :
      (c i k : ℕ)
      → IsLive m c i k
      → (m.slabs ≤ address m c i k)
        × (address m c i k + (m.caches c).chunk_size ≤ m.slabs + m.slabctl_count * slab_size)
  live-inside c i k live =
      let end = live_end c i k live in (omega arith, omega (arith, end, live.inside))

  same_slab :
      (c d i k l : ℕ)
      → k ≢ l
      → IsLive m c i k
      → IsLive m d i l
      → Before (address m c i k) (m.caches c).chunk_size (address m d i l)
        ⊎ Before (address m d i l) (m.caches d).chunk_size (address m c i k)
  same_slab c d i k l ne live other =
      let s : c ≡ d = some-injective (sym live.owner ∙ other.owner) in
      let size : (m.caches c).chunk_size ≡ (m.caches d).chunk_size =
        ap (λ x. (m.caches x).chunk_size) s in
      let first : (m.caches c).chunk_size * k ≡ (m.caches d).chunk_size * k =
        ap (λ x. x * k) size in
      elim (Bool-cases (ltb k l)) [
        | inl h ↦
            let apart = chunks_apart (m.caches d).chunk_size k l (ground (arith, h)) in
            inl (omega (arith, apart, size, first))
        | inr h ↦
            let apart = chunks_apart (m.caches d).chunk_size l k (ground (arith, h, ne)) in
            inr (omega (arith, apart, size, first))
      ]

  -- Two allocated chunks share no byte, unless they are the same slot of the same slab.
  pub live-disjoint :
      (c i k d j l : ℕ)
      → IsLive m c i k
      → IsLive m d j l
      → (i ≢ j) ⊎ (k ≢ l)
      → Before (address m c i k) (m.caches c).chunk_size (address m d j l)
        ⊎ Before (address m d j l) (m.caches d).chunk_size (address m c i k)
  live-disjoint c i k d j l live other differ = elim (Bool-cases (i == j)) [
    | inl e ↦
        let s : i ≡ j = (==_iff i j).0 e in
        let ne : k ≢ l = elim differ [ inl n ↦ absurd (n s) | inr n ↦ n ] in
        subst
          (λ x.
            Before (address m c i k) (m.caches c).chunk_size (address m d x l)
            ⊎ Before (address m d x l) (m.caches d).chunk_size (address m c i k))
          s (same_slab c d i k l ne live (subst (λ x. IsLive m d x l) (sym s) other))
    | inr e ↦
        let end = live_end c i k live in
        let end' = live_end d j l other in
        elim (Bool-cases (ltb i j)) [
          | inl h ↦ inl (ground (arith, h, end))
          | inr h ↦ inr (ground (arith, e, h, end'))
        ]
  ]
