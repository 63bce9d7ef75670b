-- ===== src/Slab/Valid/Free.antt =====
-- `scfree`: a chunk is given back.
use lightcache.Base.{
  u32, u64, ℕ, ◌+◌, ◌-◌, ◌*◌, ◌^◌, ◌≤◌, ◌≡◌, ◌⊎◌, ◌∙◌, ap, refl, sym, inl, inr, some, arith, ◌==◌,
}
use native.Mathlib.Nat.{add-mul}
use lightcache.Base.Run.{assert, ◌>>◌, Returns}
use lightcache.Base.Sums.{sum}
use lightcache.Slab.Bitset.{Bitset, slab_size, slot}
use lightcache.Slab.Links.{Ctls}
use lightcache.Slab.Manager.{Manager, SlabStats}
use lightcache.Slab.Alloc.{give_back, scfree_in, scfree}
use lightcache.Slab.Valid.{Shape, shape_of, size_at, weight, IsAlloc, IsLive}
use lightcache.Slab.Valid.Chunks.{chunk_end}
use lightcache.Slab.Valid.Change.{IsAlloc-change, total-le}
use lightcache.Slab.Valid.Rewrite.{bytes, live_but}
use lightcache.Slab.Valid.Address.{scfree_in-address}
use lightcache.Slab.Valid.Given.{address}
use lightcache.Slab.Valid.Malloc.{slabs_of}
use lightcache.Slab.Valid.Owner.{IsOwned, IsReturned, set_bit-IsReturned}
use lightcache.Slab.Valid.Release.{
  old, owned, some_used, fewer, ctl', rewrite, Releases, release-Releases,
}

-- `m'` is `m` without chunk `k` of slab `i`.
pub record IsFreed (m : Manager) (stats : SlabStats) (c i k : ℕ) (m' : Manager) (stats' : SlabStats)
    : Type 0 where
  pub alloc : IsAlloc m' stats'
  pub shape : shape_of m' ≡ shape_of m
  pub owner : (m'.slab_ctls i).cache ≡ some c
  pub count : (m.slab_ctls i).nused ≡ (m'.slab_ctls i).nused + 1
  pub gone : slot (m'.slab_ctls i).slots k ≡ 1
  pub kept : (d j l : ℕ) → IsLive m d j l → ((j ≡ i) × (l ≡ k)) ⊎ IsLive m' d j l
  pub back : (d j l : ℕ) → IsLive m' d j l → IsLive m d j l
  pub used : stats.mem_used ≡ stats'.mem_used + (m.caches c).chunk_size

module _ (m : Manager) (stats : SlabStats) (is : IsAlloc m stats) (c i k : ℕ)
    (live : IsLive m c i k) where
  abbrev sh : Shape
  sh = shape_of m

  abbrev h : Ctls
  h = m.slab_ctls

  abbrev size : ℕ
  size = (m.caches c).chunk_size

  own : IsOwned sh (h i) (is.state.home i) c k
  own = owned m stats is c i k live

  stops : size * k + size ≤ slab_size
  stops = chunk_end sh is.shape c own.inside k own.low

  least : 20 ≤ size
  least = is.shape.least c own.inside

  abbrev stats' : SlabStats
  stats' = record stats { mem_used = u64 (stats.mem_used + 2 ^ 64 - size) }

  module _ (bts' : Bitset) (returned : IsReturned (h i).slots bts' k) (m' : Manager)
      (t : Releases m stats is c i k live bts' returned m') where
    abbrev total' : ℕ
    total' = sum (weight sh m'.slab_ctls) m.slabctl_count

    less : stats.mem_used ≡ total' + size
    less =
        let step =
          bytes m stats is i live.inside (ctl' m stats is c i k live bts' returned)
            (rewrite m stats is c i k live bts' returned) m'.slab_ctls t.writes in
        let owner : size_at sh (h i).cache ≡ size = ap (size_at sh) live.owner in
        let one : (h i).nused ≡ u32 ((h i).nused + 2 ^ 32 - 1) + 1 =
          omega (arith, fewer m stats is c i k live, some_used m stats is c i k live) in
        let wide : (h i).nused * size_at sh (h i).cache
            ≡ u32 ((h i).nused + 2 ^ 32 - 1) * size_at sh (h i).cache + size =
          ap (λ n. n * size_at sh (h i).cache) one
          ∙ add-mul (u32 ((h i).nused + 2 ^ 32 - 1)) 1 (size_at sh (h i).cache)
          ∙ omega (arith, owner) in
        omega (arith, step, wide, is.used)

    used' : u64 (stats.mem_used + 2 ^ 64 - size) ≡ total'
    used' = omega (
      arith,
      less,
      is.room,
      is.word,
      total-le sh m'.slab_ctls t.state'.home is.shape t.state'.slabs,
    )

    others :
        (d j l : ℕ)
        → ((j ≡ i) × (l ≡ k))
          ⊎ ((IsLive m d j l → IsLive m' d j l) × (IsLive m' d j l → IsLive m d j l))
    others =
        live_but m stats is i live.inside (ctl' m stats is c i k live bts' returned)
          (rewrite m stats is c i k live bts' returned) m' k t.shape' t.writes returned.others

    gone' : slot (m'.slab_ctls i).slots k ≡ 1
    gone' = ap (λ b. slot b k) t.writes.here.slots ∙ returned.here

    freed : IsFreed m stats c i k m' stats'
    freed = record {
      alloc = IsAlloc-change m m' stats stats' is t.shape' t.state' used' refl;
      shape = t.shape';
      owner = t.writes.here.cache ∙ live.owner;
      count = omega (
        arith,
        t.writes.here.nused,
        fewer m stats is c i k live,
        some_used m stats is c i k live,
      );
      gone = gone';
      kept = λ d j l is_live. elim (others d j l) [
        | inl same ↦ inl same
        | inr (to, _) ↦ inr (to is_live)
      ];
      back = λ d j l is_live. elim (others d j l) [
        | inl (s, e) ↦ absurd (
            omega (
              arith,
              (λ t. slot (m'.slab_ctls (sym s t)).slots (sym e t)) ∙ is_live.allocated,
              gone',
            ))
        | inr (_, from) ↦ from is_live
      ];
      used = omega (arith, less, used');
    }

  give_back-IsFreed :
      Returns
        (give_back m stats c i k)
        λ s. (m' : Manager) × (s.cm ≡ some m') × IsFreed m stats c i k m' s.slab_stats
  unfolding give_back
  give_back-IsFreed =
      let (bts', run, returned) =
        set_bit-IsReturned (h i).slots k (old m stats is c i k live).bitset live.below
          live.allocated in
      let (m', run', t) = release-Releases m stats is c i k live bts' returned in
      (
        record { cm = some m'; slab_stats = stats' },
        rw (run, run'),
        (m', refl, freed bts' returned m' t),
      )

  found : scfree_in m stats (address m c i k) ≡ give_back m stats c i k
  found =
      scfree_in-address m stats is c i k own.inside live.inside live.owner own.low live.below
      ∙ ap (λ b. assert (b == 0) >> give_back m stats c i k) live.allocated

  -- In a well-formed state `scfree` takes back an allocated chunk: it runs to its end.
  pub scfree-IsFreed :
      Returns
        (scfree (slabs_of m stats) (address m c i k))
        λ s. (m' : Manager) × (s.cm ≡ some m') × IsFreed m stats c i k m' s.slab_stats
  unfolding scfree
  scfree-IsFreed = let (s, run, result) = give_back-IsFreed in (s, found ∙ run, result)
