-- ===== src/Slab/Valid/Disjoint.antt =====
-- The memory that `scmalloc` hands out, against the chunks that are allocated already.
use lightcache.Base.{
  ℕ, ◌+◌, ◌*◌, ◌≤◌, ◌≡◌, ◌≢◌, ◌⊎◌, ◌∙◌, ap, sym, inl, inr, some, some-injective, arith, ◌==◌,
  ==_iff, Bool-cases,
}
use lightcache.Base.Run.{ok, Returns-value}
use lightcache.Slab.Bitset.{slab_size, slot}
use lightcache.Slab.Links.{Ptr}
use lightcache.Slab.Manager.{Manager, SlabStats, Slabs}
use lightcache.Slab.Alloc.{chunk_address, scmalloc}
use lightcache.Slab.Valid.{Shape, IsAlloc, IsLive}
use lightcache.Slab.Valid.Given.{address, IsGiven}
use lightcache.Slab.Valid.Malloc.{
  slabs_of, Allocates, too_large, exhausted, given, scmalloc-Allocates,
}
use lightcache.Slab.Valid.Address.{Before, live_end, live-inside, live-disjoint}

-- The code's address of an allocated chunk, without wrapping around.
chunk_address-live :
    (m : Manager) (stats : SlabStats) (is : IsAlloc m stats) (c i k : ℕ)
    → IsLive m c i k
    → chunk_address m c i k ≡ address m c i k
unfolding chunk_address
chunk_address-live m stats is c i k live = omega (
  arith,
  (is.state.slabs i live.inside).nindex,
  live.inside,
  is.shape.few_slabs,
  live_end m stats is c i k live,
)

-- The `size` bytes from `a` on are bytes of an allocated chunk of `s`, lie within the slabs of `m`, and
-- overlap with no chunk that is allocated in `m`.
pub record IsApart (m : Manager) (s : Slabs) (size a : ℕ) : Type 0 where
  pub m' : Manager
  pub c : ℕ
  pub i : ℕ
  pub k : ℕ
  pub at : s.cm ≡ some m'
  pub live : IsLive m' c i k
  pub points : a ≡ chunk_address m' c i k
  pub fits : size ≤ (m'.caches c).chunk_size
  pub above : m.slabs ≤ a
  pub within : a + size ≤ m.slabs + m.slabctl_count * slab_size
  pub apart :
      (d j l : ℕ)
      → IsLive m d j l
      → Before a size (chunk_address m d j l)
        ⊎ Before (chunk_address m d j l) (m.caches d).chunk_size a

module _ (m : Manager) (stats : SlabStats) (is : IsAlloc m stats) (size : ℕ) (s : Slabs) (a : ℕ)
    (c : ℕ) (m' : Manager) (at : s.cm ≡ some m') (g : IsGiven m stats c m' s.slab_stats (some a))
    (holds : size ≤ (m.caches c).chunk_size) where
  same_address : (d j l : ℕ) → address m' d j l ≡ address m d j l
  same_address d j l = ap (λ (x : Shape). x.slabs + j * slab_size + x.size d * l) g.shape

  same_size : (d : ℕ) → (m'.caches d).chunk_size ≡ (m.caches d).chunk_size
  same_size d = ap (λ (x : Shape). x.size d) g.shape

  starts : a ≡ address m c g.i g.k
  starts = some-injective g.points

  differ : (d j l : ℕ) → IsLive m d j l → (g.i ≢ j) ⊎ (g.k ≢ l)
  differ d j l live = elim (Bool-cases (g.i == j)) [
    | inl e ↦
        let s : g.i ≡ j = (==_iff g.i j).0 e in
        inr (λ t.
          let same : slot (m.slab_ctls g.i).slots g.k ≡ slot (m.slab_ctls j).slots l =
            λ r. slot (m.slab_ctls (s r)).slots (t r) in
          absurd (omega (arith, same, live.allocated, g.was)))
    | inr e ↦ inl (λ s. absurd (ground (arith, e, s)))
  ]

  apart_from :
      (d j l : ℕ)
      → IsLive m d j l
      → Before a size (chunk_address m d j l)
        ⊎ Before (chunk_address m d j l) (m.caches d).chunk_size a
  apart_from d j l live =
      let here = chunk_address-live m stats is d j l live in
      let moved = same_address d j l in
      let moved' = same_address c g.i g.k in
      elim (live-disjoint m' s.slab_stats g.alloc c g.i g.k d j l g.now (g.kept d j l live)
        (differ d j l live)) [
          | inl b ↦ inl (omega (arith, b, here, moved, moved', starts, same_size c, holds))
          | inr b ↦ inr (omega (arith, b, here, moved, moved', starts, same_size d))
        ]

  given-IsApart : IsApart m s size a
  given-IsApart =
      let moved = same_address c g.i g.k in
      let (low, high) = live-inside m' s.slab_stats g.alloc c g.i g.k g.now in
      let slabs : m'.slabs ≡ m.slabs = ap (λ (x : Shape). x.slabs) g.shape in
      let count : m'.slabctl_count * slab_size ≡ m.slabctl_count * slab_size =
        ap (λ (x : Shape). x.count * slab_size) g.shape in
      record {
        m' = m';
        c = c;
        i = g.i;
        k = g.k;
        at = at;
        live = g.now;
        points =
            starts ∙ sym moved ∙ sym (chunk_address-live m' s.slab_stats g.alloc c g.i g.k g.now);
        fits = omega (arith, holds, same_size c);
        above = omega (arith, starts, moved, low, slabs);
        within = omega (arith, starts, moved, high, slabs, count, same_size c, holds);
        apart = apart_from;
      }

-- On a well-formed slab allocator, the memory of `size` bytes that `scmalloc` gives is that of an allocated
-- chunk, lies within the slabs, and shares no byte with any chunk that was allocated before.
pub scmalloc-IsApart :
    (m : Manager) (stats : SlabStats) (is : IsAlloc m stats) (size : ℕ) (s : Slabs) (a : ℕ)
    → scmalloc (slabs_of m stats) size ≡ ok (s, some a)
    → IsApart m s size a
scmalloc-IsApart m stats is size s a run =
    elim (Returns-value (Allocates m stats size) (scmalloc (slabs_of m stats) size) (s, some a)
      (scmalloc-Allocates m stats is size) run) [
        | too_large all e ↦ absurd (ground (arith, ap (λ (x : Slabs × Ptr). x.1) e))
        | exhausted c ceiling e₀ e₁ e ↦ absurd (ground (arith, ap (λ (x : Slabs × Ptr). x.1) e))
        | given c ceiling m' at g ↦ given-IsApart m stats is size s a c m' at g ceiling.1
      ]
