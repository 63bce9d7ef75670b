-- ===== src/Slab/Valid/History.antt =====
-- Any sequence of `scmalloc` and `scfree` calls.
use lightcache.Base.{ℕ, ◌≡◌, ◌∙◌, ap, refl, sym, some, some-injective}
use mathlib.Core.Path.{subst}
use lightcache.Base.Run.{ok, Returns-value}
use lightcache.Slab.Links.{Ptr}
use lightcache.Slab.Manager.{Manager, SlabStats, Slabs}
use lightcache.Slab.Alloc.{scmalloc, scfree}
use lightcache.Slab.Valid.{IsAlloc, IsLive}
use lightcache.Slab.Valid.Given.{address}
use lightcache.Slab.Valid.Malloc.{
  slabs_of, Allocates, too_large, exhausted, given, scmalloc-Allocates,
}
use lightcache.Slab.Valid.Free.{IsFreed, scfree-IsFreed}
use lightcache.Slab.Valid.Twice.{slabs_eta}

-- The slab allocator is set up and well formed.
pub record IsSound (s : Slabs) : Type 0 where
  pub m : Manager
  pub at : s.cm ≡ some m
  pub alloc : IsAlloc m s.slab_stats

-- Calls of `scmalloc` with any size and of `scfree` with the address of an allocated chunk.
pub data Calls : Slabs → Slabs → Type 0 where
  no_call : {s : Slabs} → Calls s s
  malloc_call :
      {s t : Slabs} (size : ℕ) (r : Slabs × Ptr) → scmalloc s size ≡ ok r → Calls r.0 t → Calls s t
  free_call :
      {s t : Slabs} (m : Manager) (c i k : ℕ) (r : Slabs)
      → s.cm ≡ some m
      → IsLive m c i k
      → scfree s (address m c i k) ≡ ok r
      → Calls r t
      → Calls s t

Allocates-IsSound :
    (m : Manager) (stats : SlabStats) (size : ℕ) (r : Slabs × Ptr)
    → IsAlloc m stats
    → Allocates m stats size r
    → IsSound r.0
Allocates-IsSound m stats size r is (too_large all e) =
    subst (λ (x : Slabs × Ptr). IsSound x.0) (sym e) (record { m = m; at = refl; alloc = is })
Allocates-IsSound m stats size r is (exhausted c ceiling e₀ e₁ e) =
    subst (λ (x : Slabs × Ptr). IsSound x.0) (sym e) (record { m = m; at = refl; alloc = is })
Allocates-IsSound m stats size r is (given c ceiling m' at g) = record {
  m = m';
  at = at;
  alloc = g.alloc;
}

scmalloc-IsSound :
    (s : Slabs) (size : ℕ) (r : Slabs × Ptr) → IsSound s → scmalloc s size ≡ ok r → IsSound r.0
scmalloc-IsSound s size r is run = Allocates-IsSound is.m s.slab_stats size r is.alloc (
    Returns-value (Allocates is.m s.slab_stats size) (scmalloc (slabs_of is.m s.slab_stats) size) r
      (scmalloc-Allocates is.m s.slab_stats is.alloc size)
      (ap (λ x. scmalloc x size) (sym (slabs_eta s is.m is.at)) ∙ run))

scfree-IsSound :
    (s r : Slabs) (m : Manager) (c i k : ℕ)
    → IsSound s
    → s.cm ≡ some m
    → IsLive m c i k
    → scfree s (address m c i k) ≡ ok r
    → IsSound r
scfree-IsSound s r m c i k is at live run =
    let same : is.m ≡ m = some-injective (sym is.at ∙ at) in
    let alloc = subst (λ x. IsAlloc x s.slab_stats) same is.alloc in
    let (m', at', f) =
      Returns-value
        (λ s'. (m' : Manager) × (s'.cm ≡ some m') × IsFreed m s.slab_stats c i k m' s'.slab_stats)
        (scfree (slabs_of m s.slab_stats) (address m c i k)) r
        (scfree-IsFreed m s.slab_stats alloc c i k live)
        (ap (λ x. scfree x (address m c i k)) (sym (slabs_eta s m at)) ∙ run) in
    record { m = m'; at = at'; alloc = f.alloc }

-- All calls keep the allocator well formed.
pub Calls-IsSound : (s t : Slabs) → IsSound s → Calls s t → IsSound t
Calls-IsSound s t is no_call = is
Calls-IsSound s t is (malloc_call size r run rest) =
    Calls-IsSound r.0 t (scmalloc-IsSound s size r is run) rest
Calls-IsSound s t is (free_call m c i k r at live run rest) =
    Calls-IsSound r t (scfree-IsSound s r m c i k is at live run) rest
