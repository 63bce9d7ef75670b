-- ===== src/Slab/Manager.antt =====
-- The state of the slab allocator (src/slab.c): the cache manager and the statistics. The arrays of
-- caches and of slab controls are functions of the index; the slabs are addresses from `slabs` on.
use lightcache.Base.{ℕ, Option, ◌==◌, if◌then◌else◌}
use lightcache.Slab.Links.{Ctls, Links}

pub record Cache : Type 0 where
  pub chunk_size : ℕ
  pub chunk_count_perslab : ℕ
  pub slabs_full : Links
  pub slabs_partial : Links

pub record Manager : Type 0 where
  pub caches : ℕ → Cache
  pub cache_count : ℕ
  pub slab_ctls : Ctls
  pub slabctl_count : ℕ
  pub slabs_free : Links
  pub slabs : ℕ

pub record SlabStats : Type 0 where
  pub mem_used : ℕ
  pub mem_mallocd : ℕ
  pub mem_limit : ℕ
  pub mem_used_metadata : ℕ
  pub cache_count : ℕ
  pub slab_count : ℕ

-- The two globals; `cm` is `none` while it is NULL.
pub record Slabs : Type 0 where
  pub cm : Option Manager
  pub slab_stats : SlabStats

abbrev pub set_cache : (ℕ → Cache) → ℕ → Cache → ℕ → Cache
set_cache caches c new q = if q == c then new else caches q
