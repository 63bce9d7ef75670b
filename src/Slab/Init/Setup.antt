-- ===== src/Slab/Init/Setup.antt =====
-- `malloci`, `freei`, `init_cache_manager` and `deinit_cache_manager` of src/slab.c.
use lightcache.Base.{
  u32, u64, ℕ, ◌+◌, ◌-◌, ◌*◌, ◌/◌, ◌^◌, Bool, true, false, List, [], ◌∷◌, Option, none, some,
  replicate, leb, ◌==◌, if◌then◌else◌,
}
use lightcache.Base.Run.{Run, ok, fault, bad_free, assert, assert_failed, ◌>>=◌, ◌>>◌}
use lightcache.Slab.Bitset.{slab_size, word_count, min_slab_chunk_size}
use lightcache.Slab.Links.{Ptr, Ctls, Links}
use lightcache.Slab.Manager.{Cache, Manager, SlabStats, Slabs}
use lightcache.Slab.Init.{init_caches, init_free}

-- A live block of the C library: the pointer that `malloci` gave, and the size that it wrote before it.
abbrev pub Block : Type 0
Block = ℕ × ℕ

-- The globals, the live blocks, and the pointers `cm`, `cm->caches`, `cm->slab_ctls` and `cm->slabs`.
pub record Setup : Type 0 where
  pub slabs : Slabs
  pub blocks : List Block
  pub cm_ptr : Ptr
  pub caches_ptr : Ptr
  pub ctls_ptr : Ptr
  pub slabs_ptr : Ptr

-- `*(uint64_t *)real_ptr`, if the block is live
abbrev pub block_size : List Block → ℕ → Option ℕ
block_size [] p = none
block_size ((q, size) ∷ bs) p = let rest = block_size bs p in if q == p then some size else rest

abbrev pub without_block : List Block → ℕ → List Block
without_block [] p = []
without_block ((q, size) ∷ bs) p =
    let rest = without_block bs p in if q == p then bs else (q, size) ∷ rest

abbrev pub with_stats : Setup → SlabStats → Setup
with_stats s stats = record s { slabs = record (s.slabs) { slab_stats = stats } }

abbrev pub with_cm : Setup → Manager → Setup
with_cm s m = record s { slabs = record (s.slabs) { cm = some m } }

unfoldable pub freei : Setup → Ptr → Run Setup
freei s none = fault assert_failed
freei s (some p) = elim (block_size s.blocks p) [
  | none ↦ fault bad_free
  | some size ↦
      let stats = s.slabs.slab_stats in
      ok
        (record (with_stats s
          (record stats { mem_mallocd = u64 (stats.mem_mallocd + 2 ^ 64 - size) })) {
            blocks = without_block s.blocks p;
          })
]

-- `if (ptr != NULL) freei(ptr);`
unfoldable pub free_some : Setup → Ptr → Run Setup
unfolding freei
free_some s none = ok s
free_some s (some p) = freei s (some p)

unfoldable pub deinit_cache_manager : Setup → Run Setup
unfolding free_some freei
deinit_cache_manager s = elim s.cm_ptr [
  | none ↦ ok s
  | some p ↦ do
    s₁ ← free_some s s.caches_ptr
    s₂ ← free_some s₁ s.ctls_ptr
    s₃ ← free_some s₂ s.slabs_ptr
    s₄ ← freei s₃ (some p)
    let stats = s₄.slabs.slab_stats
    assert (stats.mem_mallocd == 0)
    ok (record {
      slabs = record {
        cm = none;
        slab_stats = record stats {
          mem_used_metadata = 0;
          mem_used = 0;
          mem_limit = 0;
          cache_count = 0;
          slab_count = 0;
        };
      };
      blocks = s₄.blocks;
      cm_ptr = none;
      caches_ptr = none;
      ctls_ptr = none;
      slabs_ptr = none;
    })
]

-- From the label `err` on.
unfoldable pub err : Setup → Run (Setup × Bool)
unfolding deinit_cache_manager
err s = deinit_cache_manager s >>= λ s'. ok (s', false)

-- The sizes of the structs on a 64-bit machine.
abbrev pub sizeof_manager : ℕ
sizeof_manager = 56

abbrev pub sizeof_cache : ℕ
sizeof_cache = 40

abbrev pub sizeof_slab_ctl : ℕ
sizeof_slab_ctl = 32 + 8 * word_count

-- What `memset` leaves in the blocks.
abbrev pub zero_links : Links
zero_links = record { head = none; tail = none }

abbrev pub zero_caches : ℕ → Cache
zero_caches c = record {
  chunk_size = 0;
  chunk_count_perslab = 0;
  slabs_full = zero_links;
  slabs_partial = zero_links;
}

abbrev pub zero_ctls : Ctls
zero_ctls i = record {
  nused = 0;
  nindex = 0;
  slots = replicate word_count 0;
  next = none;
  prev = none;
  cache = none;
}

abbrev pub zero_manager : Manager
zero_manager = record {
  caches = zero_caches;
  cache_count = 0;
  slab_ctls = zero_ctls;
  slabctl_count = 0;
  slabs_free = zero_links;
  slabs = 0;
}

-- The number of slabs that the rest of the limit holds.
abbrev pub slabs_in : SlabStats → ℕ
slabs_in stats =
    u32 (u64 (stats.mem_limit + 2 ^ 65 - stats.mem_mallocd - 2 * 8) / (slab_size + sizeof_slab_ctl))

-- From the assignments to `cm->slabs_free` to `return 1`.
unfoldable pub init_slabs : Setup → Manager → ℕ → Run (Setup × Bool)
unfolding init_free
init_slabs s m q = do
  let (ctls, free) = init_free m.slabctl_count m.slab_ctls
  let stats = s.slabs.slab_stats
  assert (leb stats.mem_mallocd stats.mem_limit)
  ok (
    with_cm (record s { slabs_ptr = some q })
        (record m { slab_ctls = ctls; slabs_free = free; slabs = q }),
    true,
  )

-- `malloc bs n` is what the C library's `malloc(n)` gives while the blocks `bs` are live; `scaled` is the
-- multiplication of a size by `chunk_size_factor`, and `count` the number of caches that the logarithm gives.
module _ (malloc : List Block → ℕ → Option ℕ) (scaled : ℕ → ℕ) (count : ℕ) where
  unfoldable pub malloci : Setup → ℕ → Setup × Ptr
  malloci s size =
      let real_size = u64 (size + 8) in
      let stats = s.slabs.slab_stats in
      elim (malloc s.blocks real_size) [
        | none ↦ (s, none)
        | some a ↦ (
          record (with_stats s
              (record stats { mem_mallocd = u64 (stats.mem_mallocd + real_size) })) {
                blocks = (a + 8, real_size) ∷ s.blocks;
              },
          some (a + 8),
        )
      ]

  -- What follows `p = malloci(size); if (!p) goto err;`
  abbrev pub or_err : Setup × Ptr → (Setup → ℕ → Run (Setup × Bool)) → Run (Setup × Bool)
  or_err (s, none) next = err s
  or_err (s, some p) next = next s p

  -- From the allocation of the slabs on.
  unfoldable pub alloc_slabs : Manager → Setup → ℕ → Run (Setup × Bool)
  unfolding malloci err init_slabs
  alloc_slabs m s q =
      let stats = s.slabs.slab_stats in
      let s' =
        with_stats (record s { ctls_ptr = some q })
          (record stats { mem_used_metadata = stats.mem_mallocd }) in
      or_err (malloci s' (u32 (slab_size * m.slabctl_count))) (λ s p. init_slabs s m p)

  -- From the loop over the caches to the allocation of the slab controls.
  unfoldable pub alloc_ctls : Manager → Setup → ℕ → Run (Setup × Bool)
  unfolding malloci err init_caches alloc_slabs
  alloc_ctls m s q =
      let stats = s.slabs.slab_stats in
      let n = slabs_in stats in
      let m' = record m {
        caches = init_caches scaled count 0 min_slab_chunk_size m.caches;
        slabctl_count = n;
      } in
      let s' = with_cm (record s { caches_ptr = some q }) m' in
      let s'' = with_stats s' (record stats { slab_count = n }) in
      if leb n 1 then err s' else or_err (malloci s'' (sizeof_slab_ctl * n)) (alloc_slabs m')

  -- From the number of caches to their allocation.
  unfoldable pub alloc_caches : Setup → ℕ → Run (Setup × Bool)
  unfolding malloci err alloc_ctls
  alloc_caches s q =
      let m = record zero_manager { cache_count = count } in
      let s' =
        with_cm (record s { cm_ptr = some q; caches_ptr = none; ctls_ptr = none; slabs_ptr = none })
          m in
      or_err
        (malloci (with_stats s' (record (s.slabs.slab_stats) { cache_count = count }))
          (sizeof_cache * count))
        (alloc_ctls m)

  unfoldable pub init_cache_manager : Setup → ℕ → Run (Setup × Bool)
  unfolding malloci err alloc_caches
  init_cache_manager s memory_limit = elim s.cm_ptr [
    | some p ↦ err s
    | none ↦
        let stats = record (s.slabs.slab_stats) { mem_limit = u64 (memory_limit * 1024 * 1024) } in
        or_err (malloci (with_stats s stats) sizeof_manager) alloc_caches
  ]
