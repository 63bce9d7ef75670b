-- ===== src/Slab/Valid/Twice.antt =====
-- `scfree` at the address of a chunk that is not allocated.
use mathlib.Core.Path.{subst}
use lightcache.Base.{ℕ, ◌+◌, ◌*◌, ◌<◌, ◌≡◌, ◌∙◌, ap, refl, sym, some, arith, ◌==◌}
use lightcache.Base.Run.{ok, fault, assert, assert_failed, ◌>>◌, Returns-value}
use lightcache.Slab.Bitset.{slab_size, bit_count, slot}
use lightcache.Slab.Manager.{Manager, SlabStats, Slabs}
use lightcache.Slab.Alloc.{give_back, scfree}
use lightcache.Slab.Valid.{Shape, shape_of, IsAlloc, IsLive}
use lightcache.Slab.Valid.Chunks.{chunks-le}
use lightcache.Slab.Valid.Given.{address}
use lightcache.Slab.Valid.Malloc.{slabs_of}
use lightcache.Slab.Valid.Release.{owned}
use lightcache.Slab.Valid.Free.{IsFreed, scfree-IsFreed}
use lightcache.Slab.Valid.Address.{scfree_in-address}

module _ (m : Manager) (stats : SlabStats) (is : IsAlloc m stats) (c i k : ℕ)
    (known : c < m.cache_count) (here : i < m.slabctl_count)
    (owner : (m.slab_ctls i).cache ≡ some c) (low : k < (m.caches c).chunk_count_perslab) where
  -- A chunk that is free is not taken back: the assertion on its bit fails.
  pub scfree-not_live :
      slot (m.slab_ctls i).slots k ≡ 1
      → scfree (slabs_of m stats) (address m c i k) ≡ fault assert_failed
  unfolding scfree
  scfree-not_live free_slot =
      let below : k < bit_count = omega (arith, low, chunks-le (shape_of m) is.shape c known) in
      scfree_in-address m stats is c i k known here owner low below
      ∙ ap (λ b. assert (b == 0) >> give_back m stats c i k) free_slot

pub slabs_eta : (s : Slabs) (m : Manager) → s.cm ≡ some m → s ≡ slabs_of m s.slab_stats
slabs_eta s m e = λ t. record { cm = e t; slab_stats = s.slab_stats }

pub scfree_at :
    (s : Slabs) (m m₀ : Manager) (ptr c i k : ℕ)
    → s.cm ≡ some m
    → shape_of m ≡ shape_of m₀
    → ptr ≡ address m₀ c i k
    → scfree s ptr ≡ scfree (slabs_of m s.slab_stats) (address m c i k)
scfree_at s m m₀ ptr c i k e shape at =
    let same : address m₀ c i k ≡ address m c i k =
      ap (λ (x : Shape). x.slabs + i * slab_size + x.size c * k) (sym shape) in
    λ t. scfree (slabs_eta s m e t) ((at ∙ same) t)

-- In a well-formed state a chunk is taken back once: the second `scfree` of its address stops at the
-- assertion.
pub scfree_twice :
    (m : Manager) (stats : SlabStats) (is : IsAlloc m stats) (c i k : ℕ) (live : IsLive m c i k)
    (s : Slabs)
    → scfree (slabs_of m stats) (address m c i k) ≡ ok s
    → scfree s (address m c i k) ≡ fault assert_failed
scfree_twice m stats is c i k live s run =
    let (m', at, f) =
      Returns-value (λ s. (m' : Manager) × (s.cm ≡ some m') × IsFreed m stats c i k m' s.slab_stats)
        (scfree (slabs_of m stats) (address m c i k)) s (scfree-IsFreed m stats is c i k live)
        run in
    let own = owned m stats is c i k live in
    let inside : c < m'.cache_count =
      subst (λ (sh : Shape). c < sh.cache_count) (sym f.shape) own.inside in
    let here : i < m'.slabctl_count =
      subst (λ (sh : Shape). i < sh.count) (sym f.shape) live.inside in
    let low : k < (m'.caches c).chunk_count_perslab =
      subst (λ (sh : Shape). k < sh.chunks c) (sym f.shape) own.low in
    scfree_at s m' m (address m c i k) c i k at f.shape refl
    ∙ scfree-not_live m' s.slab_stats f.alloc c i k inside here f.owner low f.gone
