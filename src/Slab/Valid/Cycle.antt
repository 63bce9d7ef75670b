-- ===== src/Slab/Valid/Cycle.antt =====
-- `scmalloc` and `scfree` one after the other.
use lightcache.Base.{
  ℕ, ◌<◌, ◌≡◌, ◌⊎◌, ◌∙◌, ap, refl, sym, inl, inr, none, some, arith, some-injective, Bool-cases,
  ltb, List, [], ◌∷◌,
}
use mathlib.Core.Path.{subst}
use lightcache.Base.Run.{ok, Returns, Returns-value}
use lightcache.Slab.Bitset.{slot}
use lightcache.Slab.SizeClass.Ceiling.{IsCeiling}
use lightcache.Slab.Links.{Ptr, SlabCtl}
use lightcache.Slab.Links.Chain.{first}
use lightcache.Slab.Links.Bypass.{Member}
use lightcache.Slab.Manager.{Manager, SlabStats, Slabs}
use lightcache.Slab.Alloc.{scmalloc, scfree}
use lightcache.Slab.Places.{Place, free, partial, full}
use lightcache.Slab.Valid.{Shape, shape_of, IsSlab, IsAlloc, IsLive}
use lightcache.Slab.Valid.Given.{address, IsGiven}
use lightcache.Slab.Valid.Malloc.{
  slabs_of, sizes_of, Allocates, too_large, exhausted, given, scmalloc-Allocates,
}
use lightcache.Slab.Valid.Release.{used-le}
use lightcache.Slab.Valid.Free.{IsFreed, scfree-IsFreed}
use lightcache.Slab.Valid.Twice.{scfree_at, slabs_eta}

-- `s` has the allocated chunks and the count of bytes of `m`.
pub record IsRestored (m : Manager) (stats : SlabStats) (s : Slabs) : Type 0 where
  pub m' : Manager
  pub at : s.cm ≡ some m'
  pub alloc : IsAlloc m' s.slab_stats
  pub used : s.slab_stats.mem_used ≡ stats.mem_used
  pub kept : (c i k : ℕ) → IsLive m c i k → IsLive m' c i k
  pub back : (c i k : ℕ) → IsLive m' c i k → IsLive m c i k

different :
    (m : Manager) (i k c j l : ℕ)
    → slot (m.slab_ctls i).slots k ≡ 1
    → IsLive m c j l
    → (j ≡ i) × (l ≡ k)
    → ⊥
different m i k c j l was live (s, e) =
    absurd
      (omega (arith, (λ t. slot (m.slab_ctls (sym s t)).slots (sym e t)) ∙ live.allocated, was))

restored :
    (m : Manager) (stats : SlabStats) (c : ℕ) (s : Slabs) (m' : Manager) (out a : ℕ)
    → s.cm ≡ some m'
    → out ≡ a
    → IsGiven m stats c m' s.slab_stats (some out)
    → Returns (scfree s a) (IsRestored m stats)
restored m stats c s m' out a at same g =
    let (r, run, (m'', at'', f)) = scfree-IsFreed m' s.slab_stats g.alloc c g.i g.k g.now in
    let size : (m'.caches c).chunk_size ≡ (m.caches c).chunk_size =
      ap (λ (sh : Shape). sh.size c) g.shape in
    (
      r,
      scfree_at s m' m a c g.i g.k at g.shape (sym same ∙ some-injective g.points) ∙ run,
      record {
        m' = m'';
        at = at'';
        alloc = f.alloc;
        used = omega (arith, f.used, g.used, size);
        kept = λ d j l live. elim (f.kept d j l (g.kept d j l live)) [
          | inl e ↦ absurd (different m g.i g.k d j l g.was live e)
          | inr kept ↦ kept
        ];
        back = λ d j l live. elim (g.back d j l (f.back d j l live)) [
          | inl e ↦ absurd (different m'' g.i g.k d j l f.gone live e)
          | inr old ↦ old
        ];
      },
    )

-- In a well-formed state, `scfree` of the chunk that `scmalloc` has just given runs to its end, and then
-- the same chunks are allocated as before, and the count of their bytes is as before.
pub scfree-scmalloc :
    (m : Manager) (stats : SlabStats) (is : IsAlloc m stats) (size : ℕ) (s : Slabs) (a : ℕ)
    → scmalloc (slabs_of m stats) size ≡ ok (s, some a)
    → Returns (scfree s a) (IsRestored m stats)
scfree-scmalloc m stats is size s a run =
    elim (Returns-value (Allocates m stats size) (scmalloc (slabs_of m stats) size) (s, some a)
      (scmalloc-Allocates m stats is size) run) [
        | too_large all e ↦ absurd (ground (arith, ap (λ (x : Slabs × Ptr). x.1) e))
        | exhausted c ceiling e₀ e₁ e ↦ absurd (ground (arith, ap (λ (x : Slabs × Ptr). x.1) e))
        | given c ceiling m' at g ↦ restored m stats c s m' a a at refl g
      ]

no-Member : (xs : List ℕ) (i : ℕ) → first xs ≡ none → Member i xs → ⊥
no-Member [] i e m = absurd m
no-Member (x ∷ xs) i e m = absurd (ground (arith, e))

-- A slab of cache `c` with fewer allocated chunks than it has is free or partial.
room_left :
    (sh : Shape) (ctl : SlabCtl) (i : ℕ) (p : Place) (c : ℕ)
    → IsSlab sh ctl i p
    → ctl.cache ≡ some c
    → ctl.nused < sh.chunks c
    → (p ≡ free) ⊎ (p ≡ partial c)
room_left sh ctl i free c is owner less = inl refl
room_left sh ctl i (partial d) c is owner less =
    inr (ap partial (some-injective (sym is.fits.1 ∙ owner)))
room_left sh ctl i (full d) c is owner less =
    let s : sh.chunks d ≡ sh.chunks c = ap sh.chunks (some-injective (sym is.fits.1 ∙ owner)) in
    absurd (omega (arith, is.fits.2, s, less))

-- The run gives a free chunk of cache `c`.
pub record Gives (s : Slabs) (c : ℕ) (r : Slabs × Ptr) : Type 0 where
  pub m : Manager
  pub m' : Manager
  pub before : s.cm ≡ some m
  pub after : r.0.cm ≡ some m'
  pub is : IsGiven m s.slab_stats c m' r.0.slab_stats r.1

same_ceiling :
    (sizes : ℕ → ℕ) (n key c d : ℕ)
    → IsCeiling sizes n key (some c)
    → IsCeiling sizes n key (some d)
    → d ≡ c
same_ceiling sizes n key c d (in_c, fits_c, low_c) (in_d, fits_d, low_d) =
    elim (Bool-cases (ltb c d)) [
      | inl h ↦ absurd (ground (arith, low_d c, h, fits_c))
      | inr h ↦ elim (Bool-cases (ltb d c)) [
        | inl g ↦ absurd (ground (arith, low_c d, g, fits_d))
        | inr g ↦ ground (arith, h, g)
      ]
    ]

module _ (m : Manager) (stats : SlabStats) (is : IsAlloc m stats) (c i : ℕ)
    (inside : i < m.slabctl_count) (owner : (m.slab_ctls i).cache ≡ some c)
    (less : (m.slab_ctls i).nused < (m.caches c).chunk_count_perslab) (size : ℕ)
    (ceiling : IsCeiling (sizes_of m) m.cache_count size (some c)) where
  not_exhausted : (m.caches c).slabs_partial.head ≡ none → m.slabs_free.head ≡ none → ⊥
  not_exhausted no_partial no_free =
      let state = is.state in
      let m_at = state.lists.owned i inside in
      elim (room_left (shape_of m) (m.slab_ctls i) i (state.home i) c (state.slabs i inside) owner
        less) [
          | inl e ↦
              no-Member (state.seq free) i (sym (state.lists.rep free).head ∙ no_free)
                (subst (λ p. Member i (state.seq p)) e m_at)
          | inr e ↦
              no-Member (state.seq (partial c)) i
                (sym (state.lists.rep (partial c)).head ∙ no_partial)
                (subst (λ p. Member i (state.seq p)) e m_at)
        ]

  allocates-Gives : (r : Slabs × Ptr) → Allocates m stats size r → Gives (slabs_of m stats) c r
  allocates-Gives r (too_large all e) = absurd (omega (arith, all c ceiling.0, ceiling.1))
  allocates-Gives r (exhausted d ceiling' no_partial no_free e) =
      let s = same_ceiling (sizes_of m) m.cache_count size c d ceiling ceiling' in
      absurd
        (not_exhausted (subst (λ x. (m.caches x).slabs_partial.head ≡ none) s no_partial) no_free)
  allocates-Gives r (given d ceiling' m' at g) =
      let s = same_ceiling (sizes_of m) m.cache_count size c d ceiling ceiling' in
      record {
        m = m;
        m' = m';
        before = refl;
        after = at;
        is = subst (λ x. IsGiven m stats x m' r.0.slab_stats r.1) s g;
      }

  -- A cache with a slab that has a free chunk serves its sizes.
  pub scmalloc-Gives : Returns (scmalloc (slabs_of m stats) size) (Gives (slabs_of m stats) c)
  scmalloc-Gives =
      let (r, run, a) = scmalloc-Allocates m stats is size in (r, run, allocates-Gives r a)

-- After `scfree` of a chunk of cache `c` in a well-formed state, `scmalloc` gives a free chunk of the cache
-- for each size that this cache serves.
pub scmalloc-scfree :
    (m : Manager) (stats : SlabStats) (is : IsAlloc m stats) (c i k : ℕ) (live : IsLive m c i k)
    (s : Slabs) (size : ℕ)
    → scfree (slabs_of m stats) (address m c i k) ≡ ok s
    → IsCeiling (sizes_of m) m.cache_count size (some c)
    → Returns (scmalloc s size) (Gives s c)
scmalloc-scfree m stats is c i k live s size run ceiling =
    let (m', at, f) =
      Returns-value (λ s. (m' : Manager) × (s.cm ≡ some m') × IsFreed m stats c i k m' s.slab_stats)
        (scfree (slabs_of m stats) (address m c i k)) s (scfree-IsFreed m stats is c i k live)
        run in
    let less : (m'.slab_ctls i).nused < (m'.caches c).chunk_count_perslab =
      omega
        (arith, f.count, used-le m stats is c i k live, ap (λ (sh : Shape). sh.chunks c) f.shape) in
    subst (λ x. Returns (scmalloc x size) (Gives x c)) (sym (slabs_eta s m' at))
      (scmalloc-Gives m' s.slab_stats f.alloc c i
        (subst (λ (sh : Shape). i < sh.count) (sym f.shape) live.inside) f.owner less size
        (subst (λ (sh : Shape). IsCeiling sh.size sh.cache_count size (some c)) (sym f.shape)
          ceiling))
