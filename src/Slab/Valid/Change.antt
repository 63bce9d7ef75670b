-- ===== src/Slab/Valid/Change.antt =====
-- What a step of the allocator leaves as it is.
use lightcache.Base.{
  ℕ, ◌*◌, ◌<◌, ◌≤◌, ◌≡◌, ◌≢◌, ◌∙◌, ap, refl, sym, inl, inr, true, false, arith, ◌==◌, ==_iff,
  Bool-cases,
}
use mathlib.Core.Path.{subst}
use lightcache.Base.Sums.{sum, sum-le}
use lightcache.Slab.Bitset.{slab_size}
use lightcache.Slab.Links.{SlabCtl, Ctls, Links, update}
use lightcache.Slab.Manager.{Cache, Manager, SlabStats, set_cache}
use lightcache.Slab.Places.{Place}
use lightcache.Slab.Valid.{
  Shape, shape_of, IsShape, links_of, IsSlab, IsState, IsAlloc, SameData, size_at, weight,
}
use lightcache.Slab.Valid.Chunks.{bytes-le}

pub set_cache_other :
    (caches : ℕ → Cache) (c d : ℕ) (new : Cache) → d ≢ c → set_cache caches c new d ≡ caches d
set_cache_other caches c d new ne = let e : d == c ≡ false = ground (arith, ne) in rw e

pub set_cache_same : (caches : ℕ → Cache) (c : ℕ) (new : Cache) → set_cache caches c new c ≡ new
set_cache_same caches c new = let e : c == c ≡ true = ground arith in rw e

-- A new cache with the chunks of the old one.
pub set_cache_chunks {ℓ} :
    {A : Type ℓ} (f : Cache → A) (caches : ℕ → Cache) (c d : ℕ) (new : Cache)
    → f new ≡ f (caches c)
    → f (set_cache caches c new d) ≡ f (caches d)
set_cache_chunks f caches c d new same = elim (Bool-cases (d == c)) [
  | inl e ↦ let s : d ≡ c = (==_iff d c).0 e in rw e (same ∙ ap (λ x. f (caches x)) (sym s))
  | inr e ↦ rw e
]

pub shape_set :
    (m : Manager) (h : Ctls) (li : Links) (c : ℕ) (new : Cache)
    → new.chunk_size ≡ (m.caches c).chunk_size
    → new.chunk_count_perslab ≡ (m.caches c).chunk_count_perslab
    → shape_of (record m { slab_ctls = h; slabs_free = li; caches = set_cache m.caches c new })
      ≡ shape_of m
shape_set m h li c new size chunks = λ i. record {
  cache_count = m.cache_count;
  size = λ d. set_cache_chunks (λ (x : Cache). x.chunk_size) m.caches c d new size i;
  chunks = λ d. set_cache_chunks (λ (x : Cache). x.chunk_count_perslab) m.caches c d new chunks i;
  count = m.slabctl_count;
  slabs = m.slabs;
}

pub IsAlloc-change :
    (m m' : Manager) (stats stats' : SlabStats)
    → IsAlloc m stats
    → shape_of m' ≡ shape_of m
    → IsState (shape_of m) m'.slab_ctls (links_of m')
    → stats'.mem_used ≡ sum (weight (shape_of m) m'.slab_ctls) m.slabctl_count
    → stats'.mem_mallocd ≡ stats.mem_mallocd
    → IsAlloc m' stats'
IsAlloc-change m m' stats stats' is shape state used mallocd =
    let count : m'.slabctl_count ≡ m.slabctl_count = ap (λ (sh : Shape). sh.count) shape in
    record {
      shape = subst IsShape (sym shape) is.shape;
      state = subst (λ sh. IsState sh m'.slab_ctls (links_of m')) (sym shape) state;
      used = used ∙ ap (λ (sh : Shape). sum (weight sh m'.slab_ctls) sh.count) (sym shape);
      room = omega (arith, count, mallocd, is.room);
      word = omega (arith, mallocd, is.word);
    }

pub weight-same :
    (sh : Shape) (h h' : Ctls) (j : ℕ) → SameData (h j) (h' j) → weight sh h' j ≡ weight sh h j
weight-same sh h h' j same = λ i. same.nused i * size_at sh (same.cache i)

pub weight-zero : (sh : Shape) (h : Ctls) (j : ℕ) → (h j).nused ≡ 0 → weight sh h j ≡ 0
weight-zero sh h j e = rw e (omega arith)

pub total-le :
    (sh : Shape) (h : Ctls) (home : ℕ → Place)
    → IsShape sh
    → ((i : ℕ) → i < sh.count → IsSlab sh (h i) i (home i))
    → sum (weight sh h) sh.count ≤ sh.count * slab_size
total-le sh h home is slabs =
    sum-le (weight sh h) sh.count (λ j l. bytes-le sh is (h j) j (home j) (slabs j l))

pub update-links :
    (h : Ctls) (i : ℕ) (ctl : SlabCtl)
    → ctl.next ≡ (h i).next
    → ctl.prev ≡ (h i).prev
    → (y : ℕ) → ((update h i ctl y).next ≡ (h y).next) × ((update h i ctl y).prev ≡ (h y).prev)
update-links h i ctl next prev y = elim (Bool-cases (y == i)) [
  | inl e ↦
      let s : y ≡ i = (==_iff y i).0 e in
      rw e (next ∙ ap (λ x. (h x).next) (sym s), prev ∙ ap (λ x. (h x).prev) (sym s))
  | inr e ↦ rw e (refl, refl)
]

pub update-same : (h : Ctls) (i : ℕ) (ctl : SlabCtl) → update h i ctl i ≡ ctl
update-same h i ctl = let e : i == i ≡ true = ground arith in rw e

pub update-other : (h : Ctls) (i j : ℕ) (ctl : SlabCtl) → j ≢ i → update h i ctl j ≡ h j
update-other h i j ctl ne = let e : j == i ≡ false = ground (arith, ne) in rw e
