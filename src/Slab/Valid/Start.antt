-- ===== src/Slab/Valid/Start.antt =====
-- The state that `init_cache_manager` leaves: all slabs are free.
use lightcache.Base.{
  ℕ, zero, suc, ◌+◌, ◌*◌, ◌^◌, ◌<◌, ◌≤◌, ◌≡◌, ◌∙◌, ap, refl, sym, inl, inr, List, [], none, arith,
  ltb, Bool-cases,
}
use mathlib.Core.Path.{subst}
use lightcache.Base.Sums.{sum-zero}
use lightcache.Slab.Bitset.{slab_size, bit_count, IsBitset, slot}
use lightcache.Slab.Bitset.Words.{replicate-IsBitset, full_slot}
use lightcache.Slab.Links.{Ctls, Links}
use lightcache.Slab.Links.Chain.{Represents}
use lightcache.Slab.Links.Bypass.{Member}
use lightcache.Slab.Manager.{Cache, Manager, SlabStats}
use lightcache.Slab.Init.{full_word, init_free}
use lightcache.Slab.Init.Free.{interval, AllFree, init_free-Represents, init_free-nused}
use lightcache.Slab.Places.{Place, free, partial, full, Lists}
use lightcache.Slab.Valid.{shape_of, IsShape, links_of, taken, IsSlab, weight, IsAlloc, IsLive}
use lightcache.Slab.Valid.Change.{weight-zero}

interval-Member : (k i j : ℕ) → Member j (interval i k) → (i ≤ j) × (j < i + k)
interval-Member zero i j m = absurd m
interval-Member (suc k) i j (inl e) = (omega (arith, e), omega (arith, e))
interval-Member (suc k) i j (inr m) =
    let (low, high) = interval-Member k (suc i) j m in (omega (arith, low), omega (arith, high))

Member-interval : (k i j : ℕ) → i ≤ j → j < i + k → Member j (interval i k)
Member-interval zero i j low high = absurd (omega (arith, low, high))
Member-interval (suc k) i j low high = elim (Bool-cases (ltb i j)) [
  | inl h ↦ inr (Member-interval k (suc i) j (ground (arith, h)) (omega (arith, high)))
  | inr h ↦ inl (ground (arith, low, h))
]

-- A manager after the loop over the slab controls.
abbrev pub started : (ℕ → Cache) → ℕ → ℕ → Ctls → ℕ → Manager
started caches n count h slabs = record {
  caches = caches;
  cache_count = n;
  slab_ctls = (init_free count h).0;
  slabctl_count = count;
  slabs_free = (init_free count h).1;
  slabs = slabs;
}

-- A list without slab controls.
pub record IsEmpty (li : Links) : Type 0 where
  pub head : li.head ≡ none
  pub tail : li.tail ≡ none

-- Zeroed memory, in which the caches and slab controls are set up.
pub record IsFresh (caches : ℕ → Cache) (h : Ctls) : Type 0 where
  pub partial_empty : (c : ℕ) → IsEmpty (caches c).slabs_partial
  pub full_empty : (c : ℕ) → IsEmpty (caches c).slabs_full
  pub unused : (j : ℕ) → (h j).nused ≡ 0

module _ (caches : ℕ → Cache) (n count : ℕ) (h : Ctls) (slabs : ℕ) (stats : SlabStats)
    (shape : IsShape (shape_of (started caches n count h slabs))) (some_slab : 0 < count)
    (fresh : IsFresh caches h) where
  abbrev m : Manager
  m = started caches n count h slabs

  abbrev seq : Place → List ℕ
  seq free = interval 0 count
  seq (partial c) = []
  seq (full c) = []

  abbrev home : ℕ → Place
  home j = free

  empty_list : (li : Links) → IsEmpty li → Represents m.slab_ctls li []
  empty_list li e = record { head = e.head; tail = e.tail; chain = tt; distinct = tt }

  ready : Represents m.slab_ctls m.slabs_free (interval 0 count) × AllFree count m.slab_ctls
  ready = init_free-Represents count h some_slab

  rep : (p : Place) → Represents m.slab_ctls (links_of m p) (seq p)
  rep free = ready.0
  rep (partial c) = empty_list (caches c).slabs_partial (fresh.partial_empty c)
  rep (full c) = empty_list (caches c).slabs_full (fresh.full_empty c)

  at_free : (i : ℕ) (p : Place) → Member i (seq p) → (i < count) × (free ≡ p)
  at_free i free e = (omega (arith, (interval-Member count 0 i e).1), refl)
  at_free i (partial c) e = absurd e
  at_free i (full c) e = absurd e

  lists : Lists count m.slab_ctls (links_of m) seq home
  lists = record {
    rep = rep;
    at = at_free;
    owned = λ i below. Member-interval count 0 i (omega arith) (omega (arith, below));
  }

  none_used : (j : ℕ) → j < count → (m.slab_ctls j).nused ≡ 0
  none_used j below = init_free-nused count h j below ∙ fresh.unused j

  all_set : (j : ℕ) → j < count → (k : ℕ) → k < bit_count → slot (m.slab_ctls j).slots k ≡ 1
  all_set j below k inside = ap (λ b. slot b k) (ready.1.slots j below) ∙ full_slot k inside

  slab : (j : ℕ) → j < count → IsSlab (shape_of m) (m.slab_ctls j) j free
  slab j below = record {
    nindex = ready.1.nindex j below;
    bitset =
        subst IsBitset (sym (ready.1.slots j below)) (replicate-IsBitset full_word (omega arith));
    counted =
        none_used j below
        ∙ sym (
            sum-zero (taken (m.slab_ctls j).slots) bit_count
              (λ k l. omega (arith, all_set j below k l)));
    fits = none_used j below;
  }

  -- The state after `init_cache_manager` is well formed, and no chunk is allocated.
  pub started-IsAlloc :
      stats.mem_used ≡ 0
      → count * slab_size ≤ stats.mem_mallocd
      → stats.mem_mallocd < 2 ^ 64
      → IsAlloc m stats
  started-IsAlloc used room word = record {
    shape = shape;
    state = record { seq = seq; home = home; lists = lists; slabs = slab };
    used =
        used
        ∙ sym (
            sum-zero (weight (shape_of m) m.slab_ctls) count
              (λ j below. weight-zero (shape_of m) m.slab_ctls j (none_used j below)));
    room = room;
    word = word;
  }

  pub started-none_live : (c i k : ℕ) → IsLive m c i k → ⊥
  started-none_live c i k live =
      absurd (omega (arith, live.allocated, all_set i live.inside k live.below))
