-- ===== src/Slab/Valid/Given.antt =====
-- `take_chunk`: the chunk that `scmalloc` gives.
use lightcache.Base.{
  u32, u64, ℕ, ◌+◌, ◌*◌, ◌<◌, ◌≤◌, ◌≡◌, ◌⊎◌, ◌∙◌, ap, refl, sym, inl, inr, true, some, arith, leb,
}
use native.Mathlib.Nat.{add-mul}
use lightcache.Base.Run.{ok, Returns}
use lightcache.Base.Sums.{sum}
use lightcache.Slab.Bitset.{Bitset, slab_size, slot, ff_setbit, clear_bit}
use lightcache.Slab.Links.{Ctls, Ptr, same_ptr}
use lightcache.Slab.Manager.{Manager, SlabStats}
use lightcache.Slab.Alloc.{move_if_full, chunk_address, take_chunk}
use lightcache.Slab.Places.{partial}
use lightcache.Slab.Valid.{Shape, shape_of, IsSlab, size_at, weight, IsAlloc, IsLive}
use lightcache.Slab.Valid.Chunks.{chunk_end}
use lightcache.Slab.Valid.Change.{IsAlloc-change, total-le}
use lightcache.Slab.Valid.Rewrite.{bytes, live_but}
use lightcache.Slab.Valid.Chunk.{
  IsCleared, ctl', m₁, at_home, old, slot_of, nused', rewrite, Takes, takes,
}

-- The address of chunk `k` of slab `i`, which belongs to cache `c`.
abbrev pub address : Manager → ℕ → ℕ → ℕ → ℕ
address m c i k = m.slabs + i * slab_size + (m.caches c).chunk_size * k

-- `m'` is `m` with one more chunk of cache `c`, which `out` points to.
pub record IsGiven (m : Manager) (stats : SlabStats) (c : ℕ) (m' : Manager) (stats' : SlabStats)
    (out : Ptr) : Type 0 where
  pub i : ℕ
  pub k : ℕ
  pub below : k < (m.caches c).chunk_count_perslab
  pub points : out ≡ some (address m c i k)
  pub alloc : IsAlloc m' stats'
  pub shape : shape_of m' ≡ shape_of m
  pub was : slot (m.slab_ctls i).slots k ≡ 1
  pub now : IsLive m' c i k
  pub kept : (d j l : ℕ) → IsLive m d j l → IsLive m' d j l
  pub back : (d j l : ℕ) → IsLive m' d j l → ((j ≡ i) × (l ≡ k)) ⊎ IsLive m d j l
  pub used : stats'.mem_used ≡ stats.mem_used + (m.caches c).chunk_size

module _ (m : Manager) (stats : SlabStats) (is : IsAlloc m stats) (c : ℕ)
    (inside : c < m.cache_count) (i : ℕ) (front : (m.caches c).slabs_partial.head ≡ some i) where
  abbrev size : ℕ
  size = (m.caches c).chunk_size

  module _ (k : ℕ) (bts' : Bitset) (low : k < (m.caches c).chunk_count_perslab)
      (cleared : IsCleared (m.slab_ctls i).slots bts' k) where
    abbrev h : Ctls
    h = m.slab_ctls

    abbrev m' : Manager
    m' = move_if_full (m₁ m stats is c inside i front k bts' low cleared) c i

    t : Takes m stats is c inside i front k bts' low cleared m'
    t = takes m stats is c inside i front k bts' low cleared

    is_old : IsSlab (shape_of m) (h i) i (partial c)
    is_old = old m stats is c inside i front

    below_count : i < m.slabctl_count
    below_count = (at_home m stats is c inside i front).0

    abbrev total' : ℕ
    total' = sum (weight (shape_of m) m'.slab_ctls) m.slabctl_count

    more : total' ≡ stats.mem_used + size
    more =
        let step =
          bytes m stats is i below_count (ctl' m stats is c inside i front k bts' low cleared)
            (rewrite m stats is c inside i front k bts' low cleared) m'.slab_ctls t.writes in
        let owner : size_at (shape_of m) (h i).cache ≡ size =
          ap (size_at (shape_of m)) is_old.fits.1 in
        let one = nused' m stats is c inside i front k bts' low cleared in
        let wide : u32 ((h i).nused + 1) * size_at (shape_of m) (h i).cache
            ≡ (h i).nused * size_at (shape_of m) (h i).cache + size =
          ap (λ n. n * size_at (shape_of m) (h i).cache) one
          ∙ add-mul (h i).nused 1 (size_at (shape_of m) (h i).cache)
          ∙ omega (arith, owner) in
        omega (arith, step, wide, is.used)

    fits : total' ≤ stats.mem_mallocd
    fits =
        omega
          (arith, is.room, total-le (shape_of m) m'.slab_ctls t.state'.home is.shape t.state'.slabs)

    abbrev stats' : SlabStats
    stats' = record stats { mem_used = u64 (stats.mem_used + size) }

    used' : u64 (stats.mem_used + size) ≡ total'
    used' = omega (arith, more, fits, is.word)

    abbrev out : ℕ
    out = chunk_address m' c i k

    points' : out ≡ address m c i k
    unfolding chunk_address
    points' =
        let slabs : m'.slabs ≡ m.slabs = ap (λ (x : Shape). x.slabs) t.shape' in
        let bytes_each : (m'.caches c).chunk_size * k ≡ size * k =
          ap (λ (x : Shape). x.size c * k) t.shape' in
        let index : (m'.slab_ctls i).nindex ≡ i = t.writes.here.nindex ∙ is_old.nindex in
        omega (
          arith,
          slabs,
          bytes_each,
          index,
          below_count,
          is.shape.few_slabs,
          chunk_end (shape_of m) is.shape c inside k low,
        )

    slots' : (m'.slab_ctls i).slots ≡ bts'
    slots' = t.writes.here.slots

    count' : m'.slabctl_count ≡ m.slabctl_count
    count' = ap (λ (x : Shape). x.count) t.shape'

    others :
        (d j l : ℕ)
        → ((j ≡ i) × (l ≡ k))
          ⊎ ((IsLive m d j l → IsLive m' d j l) × (IsLive m' d j l → IsLive m d j l))
    others =
        live_but m stats is i below_count (ctl' m stats is c inside i front k bts' low cleared)
          (rewrite m stats is c inside i front k bts' low cleared) m' k t.shape' t.writes
          cleared.others

    kept' : (d j l : ℕ) → IsLive m d j l → IsLive m' d j l
    kept' d j l live = elim (others d j l) [
      | inl (s, e) ↦
          absurd
            (omega (arith, (λ t. slot (h (sym s t)).slots (sym e t)) ∙ live.allocated, cleared.was))
      | inr (to, _) ↦ to live
    ]

    back' : (d j l : ℕ) → IsLive m' d j l → ((j ≡ i) × (l ≡ k)) ⊎ IsLive m d j l
    back' d j l live = elim (others d j l) [ inl same ↦ inl same | inr (_, from) ↦ inr (from live) ]

    given : IsGiven m stats c m' stats' (some out)
    given = record {
      i = i;
      k = k;
      below = low;
      points = ap some points';
      alloc = IsAlloc-change m m' stats stats' is t.shape' t.state' used' refl;
      shape = t.shape';
      was = cleared.was;
      now = record {
        inside = omega (arith, below_count, count');
        owner = t.writes.here.cache ∙ is_old.fits.1;
        allocated = ap (λ b. slot b k) slots' ∙ cleared.here;
        below = cleared.inside;
      };
      kept = kept';
      back = back';
      used = used' ∙ more;
    }

    taken_run :
        ff_setbit (h i).slots ≡ some k
        → clear_bit (h i).slots k ≡ ok bts'
        → take_chunk m stats c i ≡ ok (record { cm = some m'; slab_stats = stats' }, some out)
    unfolding take_chunk
    taken_run found run =
        let owner : same_ptr (h i).cache (some c) ≡ true =
          ap (λ o. same_ptr o (some c)) is_old.fits.1 ∙ ground arith in
        let room : leb (u64 (stats.mem_used + size)) stats.mem_mallocd ≡ true =
          ground (arith, used', fits) in
        rw (owner, found, run, room)

  -- `take_chunk` from a slab that is the first partial one passes its assertions and gives a free chunk.
  pub take_chunk-IsGiven :
      Returns
        (take_chunk m stats c i)
        λ r. (m' : Manager) × (r.0.cm ≡ some m') × IsGiven m stats c m' r.0.slab_stats r.1
  take_chunk-IsGiven =
      let (k, bts', found, low, run, cleared) = slot_of m stats is c inside i front in
      (
        _,
        taken_run k bts' low cleared found run,
        (m' k bts' low cleared, refl, given k bts' low cleared),
      )
