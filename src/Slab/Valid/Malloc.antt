-- ===== src/Slab/Valid/Malloc.antt =====
-- `scmalloc`: from the size of a request to a chunk.
use lightcache.Base.{
  u32, ℕ, ◌+◌, ◌-◌, ◌*◌, ◌<◌, ◌≤◌, ◌≡◌, ◌∙◌, ap, refl, sym, inl, inr, Option, none, some, arith,
  ltb, Bool-cases,
}
use mathlib.Core.Path.{subst}
use lightcache.Base.Run.{Run, ◌>>=◌, Returns}
use lightcache.Slab.Bitset.{slab_size, slot}
use lightcache.Slab.SizeClass.{size_to_cache}
use lightcache.Slab.SizeClass.Ceiling.{IsCeiling, size_to_cache-IsCeiling}
use lightcache.Slab.Links.{Ptr, deref}
use lightcache.Slab.Links.Chain.{first}
use lightcache.Slab.Manager.{Manager, SlabStats, Slabs}
use lightcache.Slab.Alloc.{take_slab, with_slab, scmalloc_in, scmalloc}
use lightcache.Slab.Places.{free, partial}
use lightcache.Slab.Valid.{Shape, IsAlloc}
use lightcache.Slab.Valid.Take.{IsTaken, TakesSlab, take_slab-TakesSlab}
use lightcache.Slab.Valid.Given.{IsGiven, take_chunk-IsGiven}

abbrev pub slabs_of : Manager → SlabStats → Slabs
slabs_of m stats = record { cm = some m; slab_stats = stats }

abbrev pub sizes_of : Manager → ℕ → ℕ
sizes_of m c = (m.caches c).chunk_size

-- A request for `size` bytes: it is larger than all chunks; or no slab has a chunk for it, and
-- nothing changes; or it gets a free chunk of the smallest cache that holds it.
pub data Allocates (m : Manager) (stats : SlabStats) (size : ℕ) (r : Slabs × Ptr) : Type 0 where
  too_large :
      IsCeiling (sizes_of m) m.cache_count size none
      → r ≡ (slabs_of m stats, none)
      → Allocates m stats size r
  exhausted :
      (c : ℕ)
      → IsCeiling (sizes_of m) m.cache_count size (some c)
      → (m.caches c).slabs_partial.head ≡ none
      → m.slabs_free.head ≡ none
      → r ≡ (slabs_of m stats, none)
      → Allocates m stats size r
  given :
      (c : ℕ)
      → IsCeiling (sizes_of m) m.cache_count size (some c)
      → (m' : Manager) → r.0.cm ≡ some m'
      → IsGiven m stats c m' r.0.slab_stats r.1
      → Allocates m stats size r

-- A chunk of the slab that `take_slab` chose is a chunk of the state before.
IsTaken-IsGiven :
    (m m₁ m' : Manager) (stats stats' : SlabStats) (c i : ℕ) (out : Ptr)
    → IsTaken m stats c m₁ i
    → IsGiven m₁ stats c m' stats' out
    → IsGiven m stats c m' stats' out
IsTaken-IsGiven m m₁ m' stats stats' c i out t g =
    let size : (m₁.caches c).chunk_size ≡ (m.caches c).chunk_size =
      ap (λ (x : Shape). x.size c) t.shape in
    record {
      i = g.i;
      k = g.k;
      below = subst (λ n. g.k < n) (ap (λ (x : Shape). x.chunks c) t.shape) g.below;
      points =
          g.points ∙ ap (λ (x : Shape). some (x.slabs + g.i * slab_size + x.size c * g.k)) t.shape;
      alloc = g.alloc;
      shape = g.shape ∙ t.shape;
      was = sym (ap (λ b. slot b g.k) (t.slots g.i)) ∙ g.was;
      now = g.now;
      kept = λ d j l live. g.kept d j l (t.kept d j l live);
      back = λ d j l live. elim (g.back d j l live) [
        | inl same ↦ inl same
        | inr old ↦ inr (t.back d j l old)
      ];
      used = g.used ∙ ap (λ n. stats.mem_used + n) size;
    }

module _ (m : Manager) (stats : SlabStats) (is : IsAlloc m stats) (size : ℕ) where
  abbrev largest : ℕ
  largest = sizes_of m (m.cache_count - 1)

  last : m.cache_count - 1 < m.cache_count
  last = omega (arith, is.shape.some_cache)

  all_small : largest < size → IsCeiling (sizes_of m) m.cache_count size none
  all_small less i inside = elim (Bool-cases (ltb i (m.cache_count - 1))) [
    | inl h ↦ ground (arith, less, h, is.shape.grows i (m.cache_count - 1), last)
    | inr h ↦
        let s : i ≡ m.cache_count - 1 = ground (arith, h, inside) in
        subst (λ x. sizes_of m x < size) (sym s) less
  ]

  found :
      IsCeiling
        (sizes_of m)
        m.cache_count
        (u32 size)
        (size_to_cache (some (sizes_of m)) m.cache_count (u32 size))
  found =
      size_to_cache-IsCeiling (sizes_of m) m.cache_count (u32 size) is.shape.grows
        is.shape.some_cache is.shape.few_caches

  word : size ≤ largest → u32 size ≡ size
  word le = omega (arith, le, is.shape.most (m.cache_count - 1) last)

  abbrev run_in : ℕ → Run (Slabs × Ptr)
  run_in c = with_slab stats c (take_slab m c)

  chosen :
      (c : ℕ)
      → IsCeiling (sizes_of m) m.cache_count size (some c)
      → Returns (run_in c) (Allocates m stats size)
  unfolding with_slab
  chosen c ceiling = by_slab (take_slab m c) (take_slab-TakesSlab m stats is c ceiling.0)
    where
      by_slab :
          (t : Manager × Ptr)
          → TakesSlab m stats is c ceiling.0 t
          → Returns (with_slab stats c t) (Allocates m stats size)
      by_slab (m', none) (same, none_partial, none_free) = (
        (slabs_of m' stats, none),
        refl,
        exhausted c ceiling ((is.state.lists.rep (partial c)).head ∙ ap first none_partial)
            ((is.state.lists.rep free).head ∙ ap first none_free)
            (ap (λ x. (slabs_of x stats, none)) same),
      )
      by_slab (m', some i) t =
          let inside : c < m'.cache_count =
            subst (λ n. c < n) (sym (ap (λ (x : Shape). x.cache_count) t.shape)) ceiling.0 in
          let (r, run, (m'', at, g)) = take_chunk-IsGiven m' stats t.alloc c inside i t.front in
          (
            r,
            run,
            given c ceiling m'' at (IsTaken-IsGiven m m' m'' stats r.0.slab_stats c i r.1 t g),
          )

  by_search :
      (o : Option ℕ)
      → size ≤ largest
      → IsCeiling (sizes_of m) m.cache_count size o
      → Returns (deref o >>= run_in) (Allocates m stats size)
  by_search none le all = absurd (omega (arith, le, all (m.cache_count - 1) last))
  by_search (some c) le ceiling = chosen c ceiling

  -- In a well-formed state `scmalloc` runs to its end without a failed assertion, and does what
  -- `Allocates` says.
  pub scmalloc-Allocates : Returns (scmalloc (slabs_of m stats) size) (Allocates m stats size)
  unfolding scmalloc_in scmalloc
  scmalloc-Allocates = elim (Bool-cases (ltb largest size)) [
    | inl h ↦ rw h ((slabs_of m stats, none), refl, too_large (all_small (ground (arith, h))) refl)
    | inr h ↦
        let le : size ≤ largest = ground (arith, h) in
        rw h (
          by_search (size_to_cache (some (sizes_of m)) m.cache_count (u32 size)) le (
            subst
              (λ s.
                IsCeiling (sizes_of m) m.cache_count s
                  (size_to_cache (some (sizes_of m)) m.cache_count (u32 size)))
              (word le) found))
  ]
