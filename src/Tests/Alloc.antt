-- ===== src/Tests/Alloc.antt =====
-- The theorems on the slab allocator at a small allocator of two slabs and two caches.
use lightcache.Base.{
  ℕ, zero, suc, ◌+◌, ◌*◌, ◌/◌, ◌<◌, ◌≤◌, ◌≡◌, ap, refl, sym, inl, inr, false, List, [], ◌∷◌, Option,
  none, some, arith, ltb, ◌==◌, Bool-cases, some-injective,
}
use mathlib.Core.Path.{subst}
use lightcache.Base.Run.{Run, ok, fault, assert_failed, Returns, Returns-value}
use lightcache.Slab.Bitset.{slab_size, min_slab_chunk_size}
use lightcache.Slab.SizeClass.Ceiling.{IsCeiling}
use lightcache.Slab.Links.{Ptr}
use lightcache.Slab.Manager.{Cache, Manager, SlabStats, Slabs}
use lightcache.Slab.Alloc.{scmalloc, scfree}
use lightcache.Slab.Init.{init_caches, init_free}
use lightcache.Slab.Init.Setup.{Block, block_size, zero_caches, zero_ctls, init_cache_manager}
use lightcache.Slab.Init.Caches.{chunk_from, IsScale, init_caches-IsShape, init_caches-kept}
use lightcache.Slab.Init.Deinit.{state}
use lightcache.Slab.Init.Result.{Ends, init_cache_manager-Ends}
use lightcache.Server.Start.{Settings, init_settings, choose_allocator}
use lightcache.Server.Start.Allocator.{IsChosen, choose_allocator-IsChosen}
use lightcache.Slab.Valid.{IsAlloc, IsLive}
use lightcache.Slab.Valid.Start.{IsEmpty, IsFresh, started, started-IsAlloc}
use lightcache.Slab.Valid.Given.{address}
use lightcache.Slab.Valid.Malloc.{
  slabs_of, sizes_of, Allocates, too_large, exhausted, given, scmalloc-Allocates,
}
use lightcache.Slab.Valid.Disjoint.{IsApart, scmalloc-IsApart}
use lightcache.Slab.Valid.Free.{IsFreed, scfree-IsFreed}
use lightcache.Slab.Valid.Twice.{scfree_twice}
use lightcache.Slab.Valid.Cycle.{IsRestored, Gives, scfree-scmalloc, scmalloc-scfree}
use lightcache.Slab.Valid.History.{IsSound, Calls, no_call, malloc_call, free_call, Calls-IsSound}

-- The factor 1.25.
abbrev scaled : ℕ → ℕ
scaled x = x * 5 / 4

two_sizes : (d : ℕ) → d < 2 → chunk_from scaled min_slab_chunk_size d ≤ slab_size
two_sizes zero less = omega arith
two_sizes (suc zero) less = omega arith
two_sizes (suc (suc d)) less = absurd (omega (arith, less))

scaled-IsScale : IsScale scaled 2
scaled-IsScale = record {
  grows = λ x least most. (omega (arith, least), omega (arith, most));
  most = two_sizes;
}

abbrev caches : ℕ → Cache
caches = init_caches scaled 2 0 min_slab_chunk_size zero_caches

caches-IsFresh : IsFresh caches zero_ctls
caches-IsFresh = record {
  partial_empty = λ c.
      subst IsEmpty
        (sym (
          init_caches-kept (λ (x : Cache). x.slabs_partial) (λ x size. refl) scaled 2 0
            min_slab_chunk_size zero_caches c))
        (record { head = refl; tail = refl });
  full_empty = λ c.
      subst IsEmpty
        (sym (
          init_caches-kept (λ (x : Cache). x.slabs_full) (λ x size. refl) scaled 2 0
            min_slab_chunk_size zero_caches c))
        (record { head = refl; tail = refl });
  unused = λ j. refl;
}

abbrev start : Manager
start = started caches 2 2 zero_ctls 4096

abbrev start_stats : SlabStats
start_stats = record {
  mem_used = 0;
  mem_mallocd = 2 * slab_size + 20000;
  mem_limit = 3 * slab_size;
  mem_used_metadata = 20000;
  cache_count = 2;
  slab_count = 2;
}

start-IsAlloc : IsAlloc start start_stats
start-IsAlloc =
    started-IsAlloc caches 2 2 zero_ctls 4096 start_stats
      (init_caches-IsShape scaled 2 scaled-IsScale zero_caches 2 4096 (omega arith) (omega arith)
        (omega arith))
      (omega arith) caches-IsFresh refl (omega arith) (omega arith)

first_size : sizes_of start 0 ≡ 24
unfolding init_caches
first_size = refl

has_free : start.slabs_free.head ≡ some 0
unfolding init_free
has_free = refl

scmalloc-Allocates_example :
    Returns (scmalloc (slabs_of start start_stats) 24) (Allocates start start_stats 24)
scmalloc-Allocates_example = scmalloc-Allocates start start_stats start-IsAlloc 24

abbrev value_or {ℓ} : {A : Type ℓ} → A → Run A → A
value_or d (fault stop) = d
value_or d (ok a) = a

abbrev manager_or : Manager → Slabs → Manager
manager_or m s = elim s.cm [ none ↦ m | some m' ↦ m' ]

-- The state after the first `scmalloc`, and its manager.
abbrev first : Slabs × Ptr
first = value_or (slabs_of start start_stats, none) (scmalloc (slabs_of start start_stats) 24)

abbrev first_m : Manager
first_m = manager_or start first.0

abbrev first_stats : SlabStats
first_stats = first.0.slab_stats

first_run : scmalloc (slabs_of start start_stats) 24 ≡ ok (slabs_of first_m first_stats, some 4096)
unfolding scmalloc init_caches init_free
first_run = refl

-- A manager in which a chunk has been given.
record Chunk (m : Manager) (stats : SlabStats) (m' : Manager) (stats' : SlabStats) : Type 0 where
  i : ℕ
  k : ℕ
  alloc : IsAlloc m' stats'
  live : IsLive m' 0 i k

-- A run for 24 bytes that gives an address gives a chunk of the first cache.
chunk_of :
    (m : Manager) (stats : SlabStats) (m' : Manager) (stats' : SlabStats) (a : ℕ)
    → IsAlloc m stats
    → sizes_of m 0 ≡ 24
    → scmalloc (slabs_of m stats) 24 ≡ ok (slabs_of m' stats', some a)
    → Chunk m stats m' stats'
chunk_of m stats m' stats' a is size run =
    elim (Returns-value (Allocates m stats 24) (scmalloc (slabs_of m stats) 24)
      (slabs_of m' stats', some a) (scmalloc-Allocates m stats is 24) run) [
        | too_large all e ↦ absurd (ground (arith, ap (λ (x : Slabs × Ptr). x.1) e))
        | exhausted c ceiling e₀ e₁ e ↦ absurd (ground (arith, ap (λ (x : Slabs × Ptr). x.1) e))
        | given c ceiling m'' at g ↦
            let same : m'' ≡ m' = sym (some-injective at) in
            let smallest : c ≡ 0 = elim (Bool-cases (ltb 0 c)) [
              | inl h ↦ absurd (omega (arith, size, ceiling.2 0 (ground (arith, h))))
              | inr h ↦ ground (arith, h)
            ] in
            record {
              i = g.i;
              k = g.k;
              alloc = subst (λ x. IsAlloc x stats') same g.alloc;
              live =
                  subst (λ x. IsLive m' x g.i g.k) smallest
                    (subst (λ x. IsLive x c g.i g.k) same g.now);
            }
      ]

abbrev one : Chunk start start_stats first_m first_stats
one = chunk_of start start_stats first_m first_stats 4096 start-IsAlloc first_size first_run

abbrev second : Slabs × Ptr
second = value_or (slabs_of first_m first_stats, none) (scmalloc (slabs_of first_m first_stats) 24)

abbrev second_m : Manager
second_m = manager_or start second.0

second_run :
    scmalloc (slabs_of first_m first_stats) 24
    ≡ ok (slabs_of second_m second.0.slab_stats, some 4120)
unfolding scmalloc init_caches init_free
second_run = refl

abbrev one_address : ℕ
one_address = address first_m 0 one.i one.k

scfree-IsFreed_example : Returns (scfree (slabs_of first_m first_stats) one_address) λ s.
    (m' : Manager) × (s.cm ≡ some m') × IsFreed first_m first_stats 0 one.i one.k m' s.slab_stats
scfree-IsFreed_example = scfree-IsFreed first_m first_stats one.alloc 0 one.i one.k one.live

-- The state after the chunk has been given back.
freed : Returns (scfree (slabs_of first_m first_stats) one_address) λ s.
    (m' : Manager) × (s.cm ≡ some m') × IsFreed first_m first_stats 0 one.i one.k m' s.slab_stats
freed = scfree-IsFreed first_m first_stats one.alloc 0 one.i one.k one.live

scfree_twice_example : scfree freed.0 one_address ≡ fault assert_failed
scfree_twice_example =
    scfree_twice first_m first_stats one.alloc 0 one.i one.k one.live freed.0 freed.1

scfree-scmalloc_example :
    Returns (scfree (slabs_of first_m first_stats) 4096) (IsRestored start start_stats)
scfree-scmalloc_example =
    scfree-scmalloc start start_stats start-IsAlloc 24 (slabs_of first_m first_stats) 4096 first_run

holds_ten : IsCeiling (sizes_of first_m) first_m.cache_count 10 (some 0)
unfolding scmalloc init_caches init_free
holds_ten = (omega arith, omega arith, λ i h. elim h [ ])

scmalloc-scfree_example : Returns (scmalloc freed.0 10) (Gives freed.0 0)
scmalloc-scfree_example =
    scmalloc-scfree first_m first_stats one.alloc 0 one.i one.k one.live freed.0 10 freed.1
      holds_ten

scmalloc-IsApart_example : IsApart first_m (slabs_of second_m second.0.slab_stats) 24 4120
scmalloc-IsApart_example =
    scmalloc-IsApart first_m first_stats one.alloc 24 (slabs_of second_m second.0.slab_stats) 4120
      second_run

start-IsSound : IsSound (slabs_of start start_stats)
start-IsSound = record { m = start; at = refl; alloc = start-IsAlloc }

malloc_and_free : Calls (slabs_of start start_stats) freed.0
malloc_and_free =
    malloc_call 24 (slabs_of first_m first_stats, some 4096) first_run
      (free_call first_m 0 one.i one.k freed.0 refl one.live freed.1 no_call)

Calls-IsSound_example : IsSound freed.0
Calls-IsSound_example =
    Calls-IsSound (slabs_of start start_stats) freed.0 start-IsSound malloc_and_free

-- A C library that gives a block above all live ones.
abbrev above : List Block → ℕ
above [] = 0
above ((q, size) ∷ bs) = q + above bs

abbrev new_block : List Block → ℕ → Option ℕ
new_block bs n = some (above bs)

block_size-above : (bs : List Block) (p : ℕ) → above bs < p → block_size bs p ≡ none
block_size-above [] p high = refl
block_size-above ((q, size) ∷ bs) p high =
    let e : q == p ≡ false = ground (arith, high) in
    rw e (block_size-above bs p (omega (arith, high)))

new_block_fresh :
    (bs : List Block) (n a : ℕ) → new_block bs n ≡ some a → block_size bs (a + 8) ≡ none
new_block_fresh bs n a e =
    let s : above bs ≡ a = some-injective e in block_size-above bs (a + 8) (omega (arith, s))

abbrev no_stats : SlabStats
no_stats = record {
  mem_used = 0;
  mem_mallocd = 0;
  mem_limit = 0;
  mem_used_metadata = 0;
  cache_count = 0;
  slab_count = 0;
}

init_cache_manager-Ends_example :
    Returns
      (init_cache_manager new_block scaled 2 (state none no_stats [] none none none none) 3)
      Ends
init_cache_manager-Ends_example =
    init_cache_manager-Ends new_block new_block_fresh scaled 2 scaled-IsScale (omega arith)
      (omega arith) 3 (omega arith) (omega arith) no_stats refl refl

abbrev three_megabytes : Settings
three_megabytes = record init_settings { mem_avail = 3 * 1024 * 1024 }

choose_allocator-IsChosen_example :
    Returns
      (choose_allocator new_block scaled 2
        (state none no_stats [] none none none none)
        three_megabytes)
      IsChosen
choose_allocator-IsChosen_example =
    choose_allocator-IsChosen new_block new_block_fresh scaled 2 scaled-IsScale (omega arith)
      (omega arith) three_megabytes (omega arith) (omega arith) no_stats refl refl
