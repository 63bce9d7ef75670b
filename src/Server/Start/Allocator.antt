-- ===== src/Server/Start/Allocator.antt =====
-- Which allocator main chooses.
use lightcache.Base.{
  ℕ, ◌+◌, ◌*◌, ◌/◌, ◌<◌, ◌≤◌, ◌≡◌, ◌⊎◌, ap, refl, inl, inr, Bool, true, false, List, [], Option,
  none, some, arith, ltb, Bool-cases,
}
use lightcache.Base.Run.{ok, ◌>>=◌, Returns}
use lightcache.Slab.SizeClass.{int_max}
use lightcache.Slab.Manager.{SlabStats}
use lightcache.Slab.Init.Setup.{Block, Setup, block_size}
use lightcache.Slab.Init.Caches.{IsScale}
use lightcache.Slab.Init.Deinit.{state}
use lightcache.Slab.Init.Result.{IsReady, Ends, init_cache_manager-Ends}
use lightcache.Server.Start.{Settings, allocator_settings, choose_allocator}

-- The slab allocator is well formed and has a slab for each cache.
pub record IsUsable (s : Setup) : Type 0 where
  pub is_ready : IsReady s
  pub enough : s.slabs.slab_stats.cache_count ≤ s.slabs.slab_stats.slab_count

-- The C library is to be used, or the slab allocator can be.
abbrev pub IsChosen : Setup × Settings → Type 0
IsChosen (s, st) = (st.use_sys_malloc ≡ true) ⊎ IsUsable s

allocator_settings-IsChosen :
    (st : Settings) (r : Setup × Bool) → Ends r → IsChosen (r.0, allocator_settings st r)
allocator_settings-IsChosen st (s, false) idle = inl refl
allocator_settings-IsChosen st (s, true) is_ready =
    elim (Bool-cases (ltb s.slabs.slab_stats.slab_count s.slabs.slab_stats.cache_count)) [
      | inl e ↦ inl (rw e refl)
      | inr e ↦ inr (record { is_ready = is_ready; enough = ground (arith, e) })
    ]

-- With less than 4096 MB of memory that holds the caches, chunk sizes that grow and fit a slab, and a
-- malloc that gives no live block again, main gets past `init_cache_manager`, and then uses the C library
-- or a well-formed slab allocator with at least one slab for each cache.
pub choose_allocator-IsChosen :
    (malloc : List Block → ℕ → Option ℕ)
    → ((bs : List Block) (n a : ℕ) → malloc bs n ≡ some a → block_size bs (a + 8) ≡ none)
    → (scaled : ℕ → ℕ) (count : ℕ) → IsScale scaled count
    → 0 < count
    → count < int_max
    → (st : Settings) → st.mem_avail / 1024 / 1024 < 4096
    → 40 * count + 96 ≤ st.mem_avail / 1024 / 1024 * 1024 * 1024
    → (stats : SlabStats) → stats.mem_used ≡ 0
    → stats.mem_mallocd ≡ 0
    → Returns
        (choose_allocator malloc scaled count (state none stats [] none none none none) st)
        IsChosen
unfolding choose_allocator
choose_allocator-IsChosen malloc fresh scaled count scale pos small st few room stats used total =
    let limit = st.mem_avail / 1024 / 1024 in
    let (r, run, ends) =
      init_cache_manager-Ends malloc fresh scaled count scale pos small limit few room stats used
        total in
    (
      (r.0, allocator_settings st r),
      ap (λ x. x >>= λ r. ok (r.0, allocator_settings st r)) run,
      allocator_settings-IsChosen st r ends,
    )
