-- ===== src/Slab/Init/Result.antt =====
-- What `init_cache_manager` gives.
use lightcache.Base.{
  u32, u64, ℕ, ◌+◌, ◌*◌, ◌^◌, ◌<◌, ◌≤◌, ◌≡◌, ◌∙◌, ap, refl, sym, inl, inr, Bool, true, false, List,
  [], ◌∷◌, Option, none, some, arith, leb, ◌==◌, Bool-cases, Option-cases, if◌then◌else◌,
}
use mathlib.Core.Path.{subst}
use lightcache.Base.Run.{Run, ok, Returns}
use lightcache.Slab.Bitset.{slab_size, min_slab_chunk_size}
use lightcache.Slab.SizeClass.{int_max}
use lightcache.Slab.Manager.{Cache, Manager, SlabStats}
use lightcache.Slab.Init.{init_caches}
use lightcache.Slab.Init.Setup.{
  Block, Setup, block_size, with_stats, err, sizeof_manager, sizeof_cache, sizeof_slab_ctl,
  zero_caches, zero_ctls, zero_manager, slabs_in, init_slabs, malloci, or_err, alloc_slabs,
  alloc_ctls, alloc_caches, init_cache_manager,
}
use lightcache.Slab.Init.Deinit.{IsIdle, state, err_caches, err_ctls, err_slabs}
use lightcache.Slab.Init.Caches.{IsScale, init_caches-IsShape, init_caches-kept}
use lightcache.Slab.Valid.{IsAlloc, IsLive}
use lightcache.Slab.Valid.Start.{IsFresh, IsEmpty, started, started-IsAlloc, started-none_live}

-- The slab allocator is set up: well formed, with no chunk allocated, within the limit.
pub record IsReady (s : Setup) : Type 0 where
  pub m : Manager
  pub at : s.slabs.cm ≡ some m
  pub alloc : IsAlloc m s.slabs.slab_stats
  pub none_live : (c i k : ℕ) → IsLive m c i k → ⊥
  pub within : s.slabs.slab_stats.mem_mallocd ≤ s.slabs.slab_stats.mem_limit

-- The two ends of `init_cache_manager`.
abbrev pub Ends : Setup × Bool → Type 0
Ends (s, true) = IsReady s
Ends (s, false) = IsIdle s

module _ (malloc : List Block → ℕ → Option ℕ)
    (fresh : (bs : List Block) (n a : ℕ) → malloc bs n ≡ some a → block_size bs (a + 8) ≡ none)
    (scaled : ℕ → ℕ) (count : ℕ) (scale : IsScale scaled count) (some_cache : 0 < count)
    (few_caches : count < int_max) (limit : ℕ) (few_slabs : limit < 4096)
    (room : 40 * count + 96 ≤ limit * 1024 * 1024) where
  malloci-none :
      (s : Setup) (size : ℕ)
      → malloc s.blocks (u64 (size + 8)) ≡ none
      → malloci malloc scaled count s size ≡ (s, none)
  unfolding malloci
  malloci-none s size e = rw (malloci, e) refl

  abbrev more : SlabStats → ℕ → SlabStats
  more stats size = record stats { mem_mallocd = u64 (stats.mem_mallocd + u64 (size + 8)) }

  malloci-some :
      (s : Setup) (size a : ℕ)
      → malloc s.blocks (u64 (size + 8)) ≡ some a
      → malloci malloc scaled count s size ≡ (
        record (with_stats s (more s.slabs.slab_stats size)) {
          blocks = (a + 8, u64 (size + 8)) ∷ s.blocks;
        },
        some (a + 8),
      )
  unfolding malloci
  malloci-some s size a e = rw (malloci, e) refl

  undone-Ends :
      (s : Setup) → Returns (err s) (λ r. (r.1 ≡ false) × IsIdle r.0) → Returns (err s) Ends
  undone-Ends s ((s', b), run, (e, idle)) = ((s', false), run ∙ ap (λ x. ok (s', x)) e, idle)

  -- The two cases of `p = malloci(size); if (!p) goto err;`.
  by_malloci :
      (s : Setup) (size : ℕ) (next : Setup → ℕ → Run (Setup × Bool))
      → Returns (err s) (λ r. (r.1 ≡ false) × IsIdle r.0)
      → ((a : ℕ)
          → malloc s.blocks (u64 (size + 8)) ≡ some a
          → Returns
              (next
                (record (with_stats s (more s.slabs.slab_stats size)) {
                  blocks = (a + 8, u64 (size + 8)) ∷ s.blocks;
                })
                (a + 8))
              Ends)
      → Returns (or_err malloc scaled count (malloci malloc scaled count s size) next) Ends
  by_malloci s size next undone given = elim (Option-cases (malloc s.blocks (u64 (size + 8)))) [
    | inl e ↦
        subst (λ x. Returns (or_err malloc scaled count x next) Ends) (sym (malloci-none s size e))
          (undone-Ends s undone)
    | inr (a, e) ↦
        subst (λ x. Returns (or_err malloc scaled count x next) Ends)
          (sym (malloci-some s size a e)) (given a e)
  ]

  -- A new block is none of the live ones.
  apart : (bs : List Block) (q b n a : ℕ) → malloc ((q, b) ∷ bs) n ≡ some a → a + 8 == q ≡ false
  apart bs q b n a e = elim (Bool-cases (q == a + 8)) [
    | inl same ↦
        let none_left = fresh ((q, b) ∷ bs) n a e in
        absurd (
          ground
            (arith, sym (ap (λ t. if t then some b else block_size bs (a + 8)) same) ∙ none_left))
    | inr differ ↦ ground (arith, differ)
  ]

  abbrev set_up : ℕ → Manager
  set_up n = record zero_manager {
    cache_count = count;
    caches = init_caches scaled count 0 min_slab_chunk_size zero_caches;
    slabctl_count = n;
  }

  IsFresh-caches : IsFresh (set_up 0).caches zero_ctls
  IsFresh-caches =
      let partial_kept = λ (c : ℕ).
        init_caches-kept (λ (x : Cache). x.slabs_partial) (λ x size. refl) scaled count 0
          min_slab_chunk_size zero_caches c in
      let full_kept = λ (c : ℕ).
        init_caches-kept (λ (x : Cache). x.slabs_full) (λ x size. refl) scaled count 0
          min_slab_chunk_size zero_caches c in
      record {
        partial_empty =
            λ c. subst IsEmpty (sym (partial_kept c)) (record { head = refl; tail = refl });
        full_empty = λ c. subst IsEmpty (sym (full_kept c)) (record { head = refl; tail = refl });
        unused = λ j. refl;
      }

  module _ (stats : SlabStats) (used : stats.mem_used ≡ 0) (low : stats.mem_limit < 2 ^ 33) where
    ready :
        (n p q r x : ℕ) (bs : List Block)
        → 1 < n
        → n < 4096
        → n * slab_size ≤ stats.mem_mallocd
        → stats.mem_mallocd ≤ stats.mem_limit
        → Returns
            (init_slabs
              (state (some (set_up n)) stats bs (some p) (some q) (some r) none)
              (set_up n)
              x)
            Ends
    unfolding init_slabs
    ready n p q r x bs many few enough within =
        let test : leb stats.mem_mallocd stats.mem_limit ≡ true = ground (arith, within) in
        let m =
          started (init_caches scaled count 0 min_slab_chunk_size zero_caches) count n zero_ctls
            x in
        let shape =
          init_caches-IsShape scaled count scale zero_caches n x some_cache few_caches few in
        (
          (state (some m) stats bs (some p) (some q) (some r) (some x), true),
          rw test,
          record {
            m = m;
            at = refl;
            alloc =
                started-IsAlloc m.caches count n zero_ctls x stats shape (omega (arith, many))
                  IsFresh-caches used enough (omega (arith, within, low));
            none_live =
                started-none_live m.caches count n zero_ctls x stats shape (omega (arith, many))
                  IsFresh-caches;
            within = within;
          },
        )

  module _ (stats : SlabStats) (used : stats.mem_used ≡ 0) (low : stats.mem_limit < 2 ^ 33)
      (p q a b : ℕ) where
    stage_slabs :
        (n r c : ℕ)
        → 1 < n
        → n < 4096
        → r == q ≡ false
        → stats.mem_mallocd ≡ a + b + c
        → a + b + c + n * slab_size + 8 ≤ stats.mem_limit
        → Returns
            (alloc_slabs malloc scaled count
              (set_up n)
              (state
                (some (set_up n))
                stats
                ((r, c) ∷ (q, b) ∷ (p, a) ∷ [])
                (some p)
                (some q)
                none
                none)
              r)
            Ends
    unfolding alloc_slabs
    stage_slabs n r c many few ne total fits =
        let stats' = record stats { mem_used_metadata = stats.mem_mallocd } in
        let bs : List Block = (r, c) ∷ (q, b) ∷ (p, a) ∷ [] in
        let size = u32 (slab_size * n) in
        let exact : u64 (stats.mem_mallocd + u64 (size + 8)) ≡ a + b + c + n * slab_size + 8 =
          omega (arith, total, fits, low, few) in
        by_malloci (state (some (set_up n)) stats' bs (some p) (some q) (some r) none) size
          (λ s x. init_slabs s (set_up n) x)
          (err_slabs (some (set_up n)) stats' p a q b r c ne (omega (arith, fits, low)) total)
          (λ x e.
            ready (more stats' size) used low n p q r (x + 8) ((x + 8, u64 (size + 8)) ∷ bs) many
              few (omega (arith, exact)) (omega (arith, exact, fits)))

  module _ (stats : SlabStats) (used : stats.mem_used ≡ 0) (low : stats.mem_limit < 2 ^ 33)
      (p q a b : ℕ) where
    -- The slabs that the limit leaves room for.
    held :
        a + b + 16 ≤ stats.mem_limit
        → stats.mem_mallocd ≡ a + b
        → stats.mem_limit < 4096 * slab_size
        → (slabs_in stats < 4096)
          × (a + b + 16 + slabs_in stats * (slab_size + sizeof_slab_ctl) ≤ stats.mem_limit)
    held room total below = (omega (arith, room, total, below), omega (arith, room, total, below))

    stage_ctls :
        stats.mem_mallocd ≡ a + b
        → a + b + 16 ≤ stats.mem_limit
        → stats.mem_limit < 4096 * slab_size
        → Returns
            (alloc_ctls malloc scaled count
              (record zero_manager { cache_count = count })
              (state
                (some (record zero_manager { cache_count = count }))
                stats
                ((q, b) ∷ (p, a) ∷ [])
                (some p)
                none
                none
                none)
              q)
            Ends
    unfolding alloc_ctls
    stage_ctls total fits below =
        let n = slabs_in stats in
        let bs : List Block = (q, b) ∷ (p, a) ∷ [] in
        let stats' = record stats { slab_count = n } in
        let (few, in_limit) = held fits total below in
        let small : a + b < 2 ^ 64 = omega (arith, fits, low) in
        elim (Bool-cases (leb n 1)) [
          | inl e ↦ rw e (
              undone-Ends (state (some (set_up n)) stats bs (some p) (some q) none none)
                (err_ctls (some (set_up n)) stats p a q b small total))
          | inr e ↦ rw e (
              by_malloci (state (some (set_up n)) stats' bs (some p) (some q) none none)
                (sizeof_slab_ctl * n) (alloc_slabs malloc scaled count (set_up n))
                (err_ctls (some (set_up n)) stats' p a q b small total)
                (λ x f.
                  let c = u64 (sizeof_slab_ctl * n + 8) in
                  stage_slabs (more stats' (sizeof_slab_ctl * n)) used low p q a b n (x + 8) c
                    (ground (arith, e)) few
                    (apart ((p, a) ∷ []) q b (u64 (sizeof_slab_ctl * n + 8)) x f)
                    (omega (arith, total, in_limit, few, low)) (omega (arith, in_limit, few))))
        ]

  nothing_yet :
      (stats : SlabStats)
      → stats.mem_used ≡ 0
      → stats.mem_mallocd ≡ 0
      → Returns (err (state none stats [] none none none none)) λ r. (r.1 ≡ false) × IsIdle r.0
  unfolding err
  nothing_yet stats used total =
      let idle : IsIdle (state none stats [] none none none none) = record {
        cm_ptr = refl;
        cm = refl;
        blocks = refl;
        mallocd = total;
        used = used;
      } in
      ((state none stats [] none none none none, false), refl, (refl, idle))

  stage_caches :
      (stats : SlabStats) (p a : ℕ)
      → stats.mem_used ≡ 0
      → stats.mem_limit ≡ limit * 1024 * 1024
      → stats.mem_mallocd ≡ a
      → a ≡ 64
      → Returns
          (alloc_caches malloc scaled count (state none stats ((p, a) ∷ []) none none none none) p)
          Ends
  unfolding alloc_caches
  stage_caches stats p a used at_limit total is_a =
      let m = record zero_manager { cache_count = count } in
      let stats' = record stats { cache_count = count } in
      let bs : List Block = (p, a) ∷ [] in
      let size = sizeof_cache * count in
      let low : stats.mem_limit < 2 ^ 33 = omega (arith, at_limit, few_slabs) in
      by_malloci (state (some m) stats' bs (some p) none none none) size
        (alloc_ctls malloc scaled count m)
        (err_caches (some m) stats' p a (omega (arith, is_a)) total)
        (λ x e.
          stage_ctls (more stats' size) used low p (x + 8) a (u64 (size + 8))
            (omega (arith, total, is_a, few_caches))
            (omega (arith, is_a, room, few_caches, at_limit)) (omega (arith, at_limit, few_slabs)))

  -- `init_cache_manager` without a cache manager runs to its end: it sets up a well-formed allocator within
  -- the limit, or gives back every block, and no assertion fails. The limit is below 4096 MB and holds the
  -- caches, and the C library gives no block twice.
  pub init_cache_manager-Ends :
      (stats : SlabStats)
      → stats.mem_used ≡ 0
      → stats.mem_mallocd ≡ 0
      → Returns
          (init_cache_manager malloc scaled count (state none stats [] none none none none) limit)
          Ends
  unfolding init_cache_manager
  init_cache_manager-Ends stats used total =
      let stats' = record stats { mem_limit = u64 (limit * 1024 * 1024) } in
      let s = state none stats' [] none none none none in
      by_malloci s sizeof_manager (alloc_caches malloc scaled count) (nothing_yet stats' used total)
        (λ x e.
          stage_caches (more stats' sizeof_manager) (x + 8) (u64 (sizeof_manager + 8)) used
            (omega (arith, few_slabs)) (omega (arith, total)) (omega arith))
