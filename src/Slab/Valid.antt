-- ===== src/Slab/Valid.antt =====
-- The invariant of the slab allocator.
pub mod Chunks
pub mod Change
pub mod Take
pub mod Rewrite
pub mod Chunk
pub mod Given
pub mod Malloc
pub mod Owner
pub mod Release
pub mod Free
pub mod Address
pub mod Twice
pub mod Cycle
pub mod Disjoint
pub mod Start
pub mod History
use lightcache.Base.{
  ℕ, ◌+◌, ◌-◌, ◌*◌, ◌/◌, ◌^◌, ◌<◌, ◌≤◌, ◌≡◌, ◌≢◌, ◌∙◌, ap, refl, sym, inl, inr, Bool, true, false,
  List, Option, none, some, arith, ltb, ◌==◌, ==_iff, Bool-cases, if◌then◌else◌,
}
use mathlib.Core.Path.{subst}
use lightcache.Base.Sums.{sum}
use lightcache.Slab.Bitset.{Bitset, slab_size, bit_count, IsBitset, slot}
use lightcache.Slab.SizeClass.{int_max}
use lightcache.Slab.SizeClass.Ceiling.{IsIncreasing}
use lightcache.Slab.Links.{Ptr, SlabCtl, Ctls, Links}
use lightcache.Slab.Manager.{Cache, Manager, SlabStats, Slabs, set_cache}
use lightcache.Slab.Places.{Place, free, partial, full, Lists}

-- What no call of `scmalloc` or `scfree` changes.
pub record Shape : Type 0 where
  pub cache_count : ℕ
  pub size : ℕ → ℕ
  pub chunks : ℕ → ℕ
  pub count : ℕ
  pub slabs : ℕ

abbrev pub shape_of : Manager → Shape
shape_of m = record {
  cache_count = m.cache_count;
  size = λ c. (m.caches c).chunk_size;
  chunks = λ c. (m.caches c).chunk_count_perslab;
  count = m.slabctl_count;
  slabs = m.slabs;
}

-- Chunk sizes grow from at least 20 bytes to at most a slab, and the slabs are less than 4 GB.
pub record IsShape (sh : Shape) : Type 0 where
  pub grows : IsIncreasing sh.size sh.cache_count
  pub some_cache : 0 < sh.cache_count
  pub few_caches : sh.cache_count < int_max
  pub least : (c : ℕ) → c < sh.cache_count → 20 ≤ sh.size c
  pub most : (c : ℕ) → c < sh.cache_count → sh.size c ≤ slab_size
  pub fill : (c : ℕ) → c < sh.cache_count → sh.chunks c ≡ slab_size / sh.size c
  pub few_slabs : sh.count < 4096

abbrev pub links_of : Manager → Place → Links
links_of m free = m.slabs_free
links_of m (partial c) = (m.caches c).slabs_partial
links_of m (full c) = (m.caches c).slabs_full

-- 1 for an allocated chunk, and 0 for a free one
abbrev pub taken : Bitset → ℕ → ℕ
taken bts b = 1 - slot bts b

-- The slots beyond the chunks of a slab are never allocated.
abbrev pub IsSpare : ℕ → Bitset → Type 0
IsSpare n bts = (b : ℕ) → n ≤ b → b < bit_count → slot bts b ≡ 1

-- A slab control fits the list that it is in.
abbrev pub Fits : Shape → SlabCtl → Place → Type 0
Fits sh ctl free = ctl.nused ≡ 0
Fits sh ctl (partial c) =
    (c < sh.cache_count)
    × (ctl.cache ≡ some c)
    × (ctl.nused < sh.chunks c)
    × IsSpare (sh.chunks c) ctl.slots
Fits sh ctl (full c) =
    (c < sh.cache_count)
    × (ctl.cache ≡ some c)
    × (ctl.nused ≡ sh.chunks c)
    × IsSpare (sh.chunks c) ctl.slots

-- Slab `i` counts its allocated chunks, and is in the right list.
pub record IsSlab (sh : Shape) (ctl : SlabCtl) (i : ℕ) (p : Place) : Type 0 where
  pub nindex : ctl.nindex ≡ i
  pub bitset : IsBitset ctl.slots
  pub counted : ctl.nused ≡ sum (taken ctl.slots) bit_count
  pub fits : Fits sh ctl p

pub record IsState (sh : Shape) (h : Ctls) (links : Place → Links) : Type 0 where
  pub seq : Place → List ℕ
  pub home : ℕ → Place
  pub lists : Lists sh.count h links seq home
  pub slabs : (i : ℕ) → i < sh.count → IsSlab sh (h i) i (home i)

abbrev pub size_at : Shape → Ptr → ℕ
size_at sh none = 0
size_at sh (some c) = sh.size c

-- The bytes of the allocated chunks of a slab.
abbrev pub weight : Shape → Ctls → ℕ → ℕ
weight sh h i = (h i).nused * size_at sh (h i).cache

pub record IsAlloc (m : Manager) (stats : SlabStats) : Type 0 where
  pub shape : IsShape (shape_of m)
  pub state : IsState (shape_of m) m.slab_ctls (links_of m)
  pub used : stats.mem_used ≡ sum (weight (shape_of m) m.slab_ctls) m.slabctl_count
  pub room : m.slabctl_count * slab_size ≤ stats.mem_mallocd
  pub word : stats.mem_mallocd < 2 ^ 64

-- Chunk `k` of slab `i`, of cache `c`, is allocated.
pub record IsLive (m : Manager) (c i k : ℕ) : Type 0 where
  pub inside : i < m.slabctl_count
  pub owner : (m.slab_ctls i).cache ≡ some c
  pub allocated : slot (m.slab_ctls i).slots k ≡ 0
  pub below : k < bit_count

-- Controls agree in what they hold beside their links.
pub record SameData (a b : SlabCtl) : Type 0 where
  pub nused : b.nused ≡ a.nused
  pub nindex : b.nindex ≡ a.nindex
  pub slots : b.slots ≡ a.slots
  pub cache : b.cache ≡ a.cache

pub Fits-same : (sh : Shape) (a b : SlabCtl) (p : Place) → SameData a b → Fits sh a p → Fits sh b p
Fits-same sh a b free s f = s.nused ∙ f
Fits-same sh a b (partial c) s (is, cache, less, spare) = (
  is,
  s.cache ∙ cache,
  omega (arith, s.nused, less),
  λ k h l. ap (λ w. slot w k) s.slots ∙ spare k h l,
)
Fits-same sh a b (full c) s (is, cache, same, spare) =
    (is, s.cache ∙ cache, s.nused ∙ same, λ k h l. ap (λ w. slot w k) s.slots ∙ spare k h l)

pub IsSlab-same :
    (sh : Shape) (a b : SlabCtl) (i : ℕ) (p : Place)
    → SameData a b
    → IsSlab sh a i p
    → IsSlab sh b i p
IsSlab-same sh a b i p s is = record {
  nindex = s.nindex ∙ is.nindex;
  bitset = subst IsBitset (sym s.slots) is.bitset;
  counted = s.nused ∙ is.counted ∙ ap (λ w. sum (taken w) bit_count) (sym s.slots);
  fits = Fits-same sh a b p s is.fits;
}

-- Slab `i` changes, and the others keep their data and places.
pub slabs-IsSlab :
    (sh : Shape) (h h' : Ctls) (home home' : ℕ → Place) (i : ℕ)
    → ((j : ℕ) → j < sh.count → IsSlab sh (h j) j (home j))
    → ((j : ℕ) → j ≢ i → SameData (h j) (h' j) × (home' j ≡ home j))
    → IsSlab sh (h' i) i (home' i)
    → (j : ℕ) → j < sh.count
    → IsSlab sh (h' j) j (home' j)
slabs-IsSlab sh h h' home home' i slabs same new j inside = elim (Bool-cases (j == i)) [
  | inl e ↦
      let s : j ≡ i = (==_iff j i).0 e in subst (λ x. IsSlab sh (h' x) x (home' x)) (sym s) new
  | inr e ↦
      let ne : j ≢ i = λ s. absurd (ground (arith, e, s)) in
      let (d, place) = same j ne in
      IsSlab-same sh (h j) (h' j) j (home' j) d
        (subst (IsSlab sh (h j) j) (sym place) (slabs j inside))
]
