-- ===== src/Slab/Init.antt =====
-- The loops of `init_cache_manager` of src/slab.c over caches and slab controls.
pub mod Free
pub mod Setup
pub mod Deinit
pub mod Caches
pub mod Result
use lightcache.Base.{
  u32, ℕ, zero, suc, ◌+◌, ◌-◌, ◌/◌, ◌%◌, ◌^◌, none, some, replicate, ◌==◌, if◌then◌else◌,
}
use lightcache.Slab.Bitset.{slab_size, word_count}
use lightcache.Slab.Links.{Ptr, SlabCtl, Ctls, Links, update}
use lightcache.Slab.Manager.{Cache, set_cache}

abbrev pub chunk_align_bytes : ℕ
chunk_align_bytes = 8

abbrev pub aligned : ℕ → ℕ
aligned size =
    if size % chunk_align_bytes == 0
    then size
    else u32 (size + (chunk_align_bytes - size % chunk_align_bytes))

-- The loop over `k` caches from `i` on; `scaled` is the multiplication of a size by the floating-point
-- factor of the chunk sizes.
unfoldable pub init_caches : (ℕ → ℕ) → ℕ → ℕ → ℕ → (ℕ → Cache) → ℕ → Cache
init_caches scaled zero i size caches = caches
init_caches scaled (suc k) i size caches =
    let chunk = aligned size in
    init_caches scaled k (suc i) (scaled chunk) (
      set_cache caches i
        (record (caches i) { chunk_size = chunk; chunk_count_perslab = slab_size / chunk }))

-- `0xFF` in every byte of a word
abbrev pub full_word : ℕ
full_word = 2 ^ 64 - 1

abbrev pub init_ctl : ℕ → ℕ → Ptr → SlabCtl → SlabCtl
init_ctl count i prev ctl = record ctl {
  prev = prev;
  next = if i == count - 1 then none else some (suc i);
  nindex = i;
  slots = replicate word_count full_word;
}

-- The loop over `k` slab controls from `i` on, with `prev_slab`
unfoldable pub link_ctls : ℕ → ℕ → ℕ → Ptr → Ctls → Ctls
link_ctls count zero i prev h = h
link_ctls count (suc k) i prev h =
    link_ctls count k (suc i) (some i) (update h i (init_ctl count i prev (h i)))

-- `cm->slabs_free` and the slab controls after the loop
unfoldable pub init_free : ℕ → Ctls → Ctls × Links
unfolding link_ctls
init_free count h =
    (link_ctls count count 0 none h, record { head = some 0; tail = some (count - 1) })
