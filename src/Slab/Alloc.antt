-- ===== src/Slab/Alloc.antt =====
-- `scmalloc` and `scfree` of src/slab.c. `unsigned int` is taken modulo 2 ^ 32 and `uint64_t`
-- modulo 2 ^ 64 where the code computes with it.
use lightcache.Base.{
  u32, u64, ℕ, suc, ◌+◌, ◌-◌, ◌*◌, ◌/◌, ◌%◌, ◌^◌, none, some, ltb, leb, ◌==◌, if◌then◌else◌,
}
use lightcache.Base.Run.{
  Run, ok, fault, assert, assert_failed, null_pointer, out_of_range, ◌>>=◌, ◌>>◌,
}
use lightcache.Slab.Bitset.{slab_size, set_bit, clear_bit, get_bit, ff_setbit}
use lightcache.Slab.SizeClass.{size_to_cache}
use lightcache.Slab.Links.{
  Ptr, Ctls, Links, update, same_ptr, deref, assert_pointer, peek, push, pop, pop_and_push,
  rem_and_push,
}
use lightcache.Slab.Manager.{Cache, Manager, SlabStats, Slabs, set_cache}

abbrev pub set_partial : Manager → ℕ → Links → ℕ → Cache
set_partial m c li = set_cache m.caches c (record (m.caches c) { slabs_partial = li })

-- `push(&ccache->slabs_partial, cslab); cslab->cache = ccache;` for a slab that `pop` gave
abbrev pub adopt : Manager → ℕ → Ctls × Links × Ptr → Manager × Ptr
adopt m c (h, free, none) = (record m { slab_ctls = h; slabs_free = free }, none)
adopt m c (h, free, some i) =
    let (h', partial) = push h (m.caches c).slabs_partial i in
    (
      record m {
        slab_ctls = update h' i (record (h' i) { cache = some c });
        slabs_free = free;
        caches = set_partial m c partial;
      },
      some i,
    )

-- The slab to allocate from: the first partial one, or one from the free list.
unfoldable pub take_slab : Manager → ℕ → Manager × Ptr
unfolding peek push pop
take_slab m c = elim (peek (m.caches c).slabs_partial) [
  | some i ↦ (m, some i)
  | none ↦ adopt m c (pop m.slab_ctls m.slabs_free)
]

-- `if (++cslab->nused == ...) pop_and_push(...)`, with the new count in `m` already
unfoldable pub move_if_full : Manager → ℕ → ℕ → Manager
unfolding pop_and_push
move_if_full m c i =
    let cache = m.caches c in
    let (h, partial, full, _) = pop_and_push m.slab_ctls cache.slabs_partial cache.slabs_full in
    if (m.slab_ctls i).nused == cache.chunk_count_perslab
    then record m {
      slab_ctls = h;
      caches = set_cache m.caches c (record cache { slabs_partial = partial; slabs_full = full });
    }
    else m

unfoldable pub chunk_address : Manager → ℕ → ℕ → ℕ → ℕ
chunk_address m c i k =
    m.slabs + u32 ((m.slab_ctls i).nindex * slab_size) + u32 ((m.caches c).chunk_size * k)

-- From the assertion on `cslab->cache` to the end.
unfoldable pub take_chunk : Manager → SlabStats → ℕ → ℕ → Run (Slabs × Ptr)
unfolding ff_setbit clear_bit move_if_full chunk_address
take_chunk m stats c i = do
  let ctl = m.slab_ctls i
  assert (same_ptr ctl.cache (some c))
  ffindex ← assert_pointer (ff_setbit ctl.slots)
  slots ← clear_bit ctl.slots ffindex
  let ctl' = record ctl { slots = slots; nused = u32 (ctl.nused + 1) }
  let m' = move_if_full (record m { slab_ctls = update m.slab_ctls i ctl' }) c i
  let used = u64 (stats.mem_used + (m.caches c).chunk_size)
  assert (leb used stats.mem_mallocd)
  ok (
    record { cm = some m'; slab_stats = record stats { mem_used = used } },
    some (chunk_address m' c i ffindex),
  )

unfoldable pub with_slab : SlabStats → ℕ → Manager × Ptr → Run (Slabs × Ptr)
unfolding take_chunk
with_slab stats c (m, none) = ok (record { cm = some m; slab_stats = stats }, none)
with_slab stats c (m, some i) = take_chunk m stats c i

unfoldable pub scmalloc_in : Manager → SlabStats → ℕ → Run (Slabs × Ptr)
unfolding take_slab with_slab size_to_cache
scmalloc_in m stats size =
    let largest = (m.caches (m.cache_count - 1)).chunk_size in
    let found = size_to_cache (some (λ c. (m.caches c).chunk_size)) m.cache_count (u32 size) in
    if ltb largest size
    then ok (record { cm = some m; slab_stats = stats }, none)
    else (deref found >>= λ c. with_slab stats c (take_slab m c))

-- The assertion on `cm->caches` has no counterpart: the array is a function, which is never NULL.
unfoldable pub scmalloc : Slabs → ℕ → Run (Slabs × Ptr)
unfolding scmalloc_in
scmalloc s size = elim s.cm [
  | none ↦ fault assert_failed
  | some m ↦ scmalloc_in m s.slab_stats size
]

-- `rem_and_push` from a list of cache `c` to the list `dest`; `rem` walks at most all controls.
unfoldable pub to_free : Manager → ℕ → ℕ → Run Manager
unfolding rem_and_push
to_free m c i = do
  let fuel = suc m.slabctl_count
  (h, partial, free, found) ←
      rem_and_push fuel m.slab_ctls (m.caches c).slabs_partial m.slabs_free i
  let m' = record m { slab_ctls = h; slabs_free = free; caches = set_partial m c partial }
  if found then ok m' else do
    (h', full, free', found') ←
        rem_and_push fuel m'.slab_ctls (m'.caches c).slabs_full m'.slabs_free i
    assert found'
    ok (record m' {
      slab_ctls = h';
      slabs_free = free';
      caches = set_cache m'.caches c (record (m'.caches c) { slabs_full = full });
    })

unfoldable pub to_partial : Manager → ℕ → ℕ → Run Manager
unfolding rem_and_push
to_partial m c i = do
  let cache = m.caches c
  (h, full, partial, found) ←
      rem_and_push (suc m.slabctl_count) m.slab_ctls cache.slabs_full cache.slabs_partial i
  assert found
  ok (record m {
    slab_ctls = h;
    caches = set_cache m.caches c (record cache { slabs_full = full; slabs_partial = partial });
  })

-- From `set_bit` to the end, for slot `cidx` of slab `i`, which belongs to cache `c`.
unfoldable pub give_back : Manager → SlabStats → ℕ → ℕ → ℕ → Run Slabs
unfolding set_bit to_free to_partial
give_back m stats c i cidx = do
  let ctl = m.slab_ctls i
  slots ← set_bit ctl.slots cidx
  let nused = u32 (ctl.nused + 2 ^ 32 - 1)
  let m' = record m {
    slab_ctls = update m.slab_ctls i (record ctl { slots = slots; nused = nused });
  }
  let last_one = u32 ((m.caches c).chunk_count_perslab + 2 ^ 32 - 1)
  moved ←
      if nused == 0 then to_free m' c i else if nused == last_one then to_partial m' c i else ok m'
  ok (record {
    cm = some moved;
    slab_stats = record stats {
      mem_used = u64 (stats.mem_used + 2 ^ 64 - (m.caches c).chunk_size);
    };
  })

-- The offset of a pointer from the start of the slabs, as an `unsigned int`.
abbrev pub pointer_offset : Manager → ℕ → ℕ
pointer_offset m ptr = u32 (u64 (ptr + 2 ^ 64 - m.slabs))

unfoldable pub scfree_in : Manager → SlabStats → ℕ → Run Slabs
unfolding get_bit give_back
scfree_in m stats ptr = do
  let pdiff = pointer_offset m ptr
  assert (leb pdiff (u32 (m.slabctl_count * slab_size)))
  let sidx = pdiff / slab_size
  if ltb sidx m.slabctl_count then ok tt else fault out_of_range
  c ← deref (m.slab_ctls sidx).cache
  let cidx = pdiff % slab_size / (m.caches c).chunk_size
  bit ← get_bit (m.slab_ctls sidx).slots cidx
  assert (bit == 0)
  give_back m stats c sidx cidx

unfoldable pub scfree : Slabs → ℕ → Run Slabs
unfolding scfree_in
scfree s ptr = elim s.cm [ none ↦ fault null_pointer | some m ↦ scfree_in m s.slab_stats ptr ]
